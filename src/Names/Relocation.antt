-- ===== src/Names/Relocation.antt =====
-- The update that gives a row another parent and name.
use fslite.Common.{
  ℕ, ◌≡◌, refl, sym, ◌∙◌, subst, Bool, true, false, not, ◌&&◌, ◌||◌, Option, none, some, List, [],
  ◌∷◌, Text, ◌==◌, if◌then◌else◌, inl, inr, Bool-cases, Option-cases, ==_eq, text_eq, text_eq_refl,
  text_eq_eq, All, All-map, All-zip, arith,
}
use fslite.Schema.{RawNode, NodeRow, Db}
use fslite.Sql.{
  constraint_violation, done, find_by, is_active, is_just, occupied, references_ok, relocation_ok,
  relocate_node, set_where,
}
use fslite.Keeps.{ends, fails, Keeps, Holds-guard}
use fslite.Keeps.Statements.{KeepsIdentity}
use package.fslite.Names.{
  Apart, AreApart, HasUniqueNames, columns_agree, same_place, All-none, All-set_where, last_false,
}

-- how a row stands to the moved row `m`, of id `i`, and to what becomes of it
record Stands (i : ℕ) (f : NodeRow → NodeRow) (m q : NodeRow) : Type 0 where
  is_it : (q.node.id == i) ≡ true → q ≡ m
  is_free :
      (q.node.id == i) ≡ false
      → is_active q ≡ true
      → is_active (f m) ≡ true
      → same_place q.node (f m).node ≡ false

columns_agree-sym :
    (u : ℕ) (p : Option ℕ) (m : Text) (v : ℕ) (q : Option ℕ) (n : Text)
    → columns_agree u p m v q n ≡ true
    → columns_agree v q n u p m ≡ true
unfolding columns_agree
columns_agree-sym u none m v none n h = ground arith
columns_agree-sym u none m v (some j) n h = ground arith
columns_agree-sym u (some i) m v none n h = ground arith
columns_agree-sym u (some i) m v (some j) n h =
    let names = text_eq_eq m n (ground arith) in rw (names, text_eq_refl n) (ground arith)

same_place-sym : (m n : RawNode) → same_place m n ≡ false → same_place n m ≡ false
same_place-sym m n h = elim (Bool-cases (same_place n m)) [
  | inl e ↦ let back = columns_agree-sym _ _ _ _ _ _ e in cc
  | inr e ↦ e
]

-- a row apart from another of id `i` is not of id `i`
apart_id : (i a b : ℕ) → (a == b) ≡ false → (a == i) ≡ true → (b == i) ≡ false
apart_id i a b h k = ground arith

module _ (i : ℕ) (f : NodeRow → NodeRow) (identity : KeepsIdentity f) (m : NodeRow) where
  -- rows of which none is the moved one stay as they are
  set_where-other :
      (rows : List NodeRow) → All (λ q. (q.node.id == i) ≡ false) rows → set_where i f rows ≡ rows
  unfolding set_where
  set_where-other [] h = refl
  set_where-other (r ∷ rows) (e, h) = rw (e, set_where-other rows h) refl

  moved-Apart :
      (r q : NodeRow)
      → (r.node.id == i) ≡ true
      → Stands i f m r
      → (Apart r q × Stands i f m q)
      → Apart (f r) q
  moved-Apart r q e s (a, t) =
      let it = s.is_it e in
      let same = λ (x : NodeRow). is_active (f x) ≡ true in
      let at = λ (x : NodeRow). same_place q.node (f x).node ≡ false in
      record {
        ids = rw (identity.id r) a.ids;
        places = λ b c.
            same_place-sym q.node (f r).node
              (subst at (sym it) (t.is_free (apart_id i _ _ a.ids e) c (subst same it b)));
      }

  before-Apart :
      (r q : NodeRow)
      → (r.node.id == i) ≡ false
      → Stands i f m r
      → (Apart r q × Stands i f m q)
      → Apart r (if q.node.id == i then f q else q)
  before-Apart r q e s (a, t) = elim (Bool-cases (q.node.id == i)) [
    | inr d ↦ rw d a
    | inl d ↦ rw d (
        let it = t.is_it d in
        record {
          ids = rw (identity.id q) a.ids;
          places = λ b c.
              subst (λ x. same_place r.node (f x).node ≡ false) (sym it)
                (s.is_free e b (subst (λ x. is_active (f x) ≡ true) it c));
        })
  ]

  AreApart-relocated :
      (rows : List NodeRow)
      → AreApart rows
      → All (Stands i f m) rows
      → AreApart (set_where i f rows)
  unfolding AreApart set_where
  AreApart-relocated [] h k = tt
  AreApart-relocated (r ∷ rows) (a, h) (s, k) = elim (Bool-cases (r.node.id == i)) [
    | inl e ↦
        let others =
          All-map (Apart r) (λ q. (q.node.id == i) ≡ false) (λ q b. apart_id i _ _ b.ids e) rows
            a in
        rw (e, set_where-other rows others)
          (All-map _ _ (λ q both. moved-Apart r q e s both) rows (All-zip _ _ rows a k), h)
    | inr e ↦ rw e (
      All-set_where _ _ i f (λ q both. before-Apart r q e s both) rows (All-zip _ _ rows a k),
      AreApart-relocated rows h k,
    )
  ]

-- the first row of an id is the one row of it
same_id_same_row :
    (i : ℕ) (m : NodeRow) (rows : List NodeRow)
    → AreApart rows
    → find_by (λ r. r.node.id == i) rows ≡ some m
    → All (λ q. (q.node.id == i) ≡ true → q ≡ m) rows
unfolding AreApart find_by
same_id_same_row i m [] h k = tt
same_id_same_row i m (r ∷ rows) (a, h) k = elim (Bool-cases (r.node.id == i)) [
  | inl e ↦ (λ _. cc, All-map _ _ (λ q b d. let not_it = apart_id i _ _ b.ids e in cc) rows a)
  | inr e ↦ (λ d. cc, same_id_same_row i m rows h cc)
]

found_id :
    (i : ℕ) (m : NodeRow) (rows : List NodeRow)
    → find_by (λ r. r.node.id == i) rows ≡ some m
    → m.node.id ≡ i
unfolding find_by
found_id i m [] k = cc
found_id i m (r ∷ rows) k = elim (Bool-cases (r.node.id == i)) [
  | inl e ↦ let same = ==_eq _ _ e in cc
  | inr e ↦ found_id i m rows cc
]

no_row :
    (i : ℕ) (f : NodeRow → NodeRow) (rows : List NodeRow)
    → find_by (λ r. r.node.id == i) rows ≡ none
    → set_where i f rows ≡ rows
unfolding find_by set_where
no_row i f [] k = refl
no_row i f (r ∷ rows) k = elim (Bool-cases (r.node.id == i)) [
  | inl e ↦ cc
  | inr e ↦ rw (e, no_row i f rows cc) refl
]

-- a row that the moved row may stand beside
free_beside :
    (q n : NodeRow) (i : ℕ)
    → n.node.id ≡ i
    → (is_active q
        && q.node.workspace_id == n.node.workspace_id
        && (elim n.node.parent_id [ none ↦ false | some p ↦ is_just q.node.parent_id p ])
        && text_eq q.node.name n.node.name
        && not (q.node.id == n.node.id))
      ≡ false
    → (q.node.id == i) ≡ false
    → is_active q ≡ true
    → same_place q.node n.node ≡ false
unfolding columns_agree
free_beside q n i e o d a = last_false _ _ _ _ (q.node.id == n.node.id) o (rw e d) a

-- the guard on the row as it becomes
guard_right : (a b c : Bool) → (a && (not b || not c)) ≡ true → b ≡ true → c ≡ false
guard_right a b c h k = ground arith

All-Stands :
    (db : Db) (i : ℕ) (f : NodeRow → NodeRow) (m : NodeRow)
    → KeepsIdentity f
    → AreApart db.nodes
    → find_by (λ r. r.node.id == i) db.nodes ≡ some m
    → (references_ok db (f m).node && (not (is_active (f m)) || not (occupied db (f m).node)))
      ≡ true
    → All (Stands i f m) db.nodes
unfolding occupied
All-Stands db i f m identity h k g =
    let its = same_id_same_row i m db.nodes h k in
    elim (Bool-cases (is_active (f m))) [
      | inr n ↦ All-map _ _ (λ q it. record { is_it = it; is_free = λ d a b. cc }) db.nodes its
      | inl y ↦
          let free = All-none _ db.nodes (guard_right _ _ _ g y) in
          All-map _ _
            (λ q both. record {
              is_it = both.0;
              is_free = λ d a b.
                  free_beside q (f m) i (identity.id m ∙ found_id i m db.nodes k) both.1 d a;
            })
            db.nodes (All-zip _ _ db.nodes its free)
    ]

guard_of :
    (db : Db) (i : ℕ) (f : NodeRow → NodeRow) (m : NodeRow)
    → find_by (λ r. r.node.id == i) db.nodes ≡ some m
    → relocation_ok db i f ≡ true
    → (references_ok db (f m).node && (not (is_active (f m)) || not (occupied db (f m).node)))
      ≡ true
unfolding relocation_ok
guard_of db i f m e g =
    subst
      (λ o.
        (elim o [
          | none ↦ true
          | some r ↦
              references_ok db (f r).node && (not (is_active (f r)) || not (occupied db (f r).node))
        ])
        ≡ true)
      e g

relocated-AreApart :
    (db : Db) (i : ℕ) (f : NodeRow → NodeRow)
    → KeepsIdentity f
    → AreApart db.nodes
    → relocation_ok db i f ≡ true
    → AreApart (set_where i f db.nodes)
unfolding relocation_ok
relocated-AreApart db i f identity h g =
    elim (Option-cases (find_by (λ r. r.node.id == i) db.nodes)) [
      | inl e ↦ rw (no_row i f db.nodes e) h
      | inr (m, e) ↦
          AreApart-relocated i f identity m db.nodes h
            (All-Stands db i f m identity h e (guard_of db i f m e g))
    ]

pub relocate_node-HasUniqueNames :
    (i : ℕ) (f : NodeRow → NodeRow) → KeepsIdentity f → Keeps HasUniqueNames (relocate_node i f)
unfolding relocate_node HasUniqueNames
relocate_node-HasUniqueNames i f identity = record {
  at = λ db h.
      Holds-guard HasUniqueNames (relocation_ok db i f)
        (done tt (record db { nodes = set_where i f db.nodes })) _
        (λ g. ends (relocated-AreApart db i f identity h g))
        (fails {e = constraint_violation} {t = db.ticks});
}
