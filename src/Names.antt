-- ===== src/Names.antt =====
-- The table `nodes` as a tree of names: ids, and the names below one parent.
pub mod Lookup
pub mod Relocation
pub mod Operations
use fslite.Common.{
  ℕ, ◌≡◌, ◌≢◌, refl, sym, ap, ◌∙◌, Bool, true, false, not, ◌&&◌, ◌||◌, Option, none, some, List, [],
  ◌∷◌, ◌++◌, Text, ◌==◌, if◌then◌else◌, inl, inr, Bool-cases, Option-cases, ==_refl, ==_eq, text_eq,
  text_eq_refl, text_eq_eq, All, All-append, All-map, All-zip, arith, or-eq-false,
}
use fslite.Schema.{RawNode, NodeRow, Db}
use fslite.Sql.{
  Ran, done, failed, find_by, any_by, keep_by, is_active, is_just, occupied, has_node, insert_node,
  insert_ok, inserted, constraint_violation, set_where, update_node,
}
use fslite.Keeps.{Holds, ends, fails, Keeps, Holds-if, Holds-guard}
use fslite.Keeps.Statements.{IsQuiet, KeepsIdentity}

unfoldable pub columns_agree : ℕ → Option ℕ → Text → ℕ → Option ℕ → Text → Bool
columns_agree u p m v q n =
    u == v && (elim q [ none ↦ false | some i ↦ is_just p i ]) && text_eq m n

-- The columns of the index `nodes_parent_active` agree, and the parent is not NULL.
abbrev pub same_place : RawNode → RawNode → Bool
same_place m n = columns_agree m.workspace_id m.parent_id m.name n.workspace_id n.parent_id n.name

-- Different ids, and not two active rows of one name in one directory.
pub record Apart (r q : NodeRow) : Type 0 where
  pub ids : (r.node.id == q.node.id) ≡ false
  pub places : is_active r ≡ true → is_active q ≡ true → same_place r.node q.node ≡ false

-- Any two rows are apart.
unfoldable pub AreApart : List NodeRow → Type 0
AreApart [] = Unit
AreApart (r ∷ rows) = All (Apart r) rows × AreApart rows

unfoldable pub HasUniqueNames : Db → Type 0
HasUniqueNames db = AreApart db.nodes

pub All-none :
    (p : NodeRow → Bool) (rows : List NodeRow) → any_by p rows ≡ false → All (λ r. p r ≡ false) rows
unfolding any_by
All-none p [] h = tt
All-none p (r ∷ rows) h =
    let both = or-eq-false (p r) (any_by p rows) h in (both.0, All-none p rows both.1)

All-keep_by :
    (P : NodeRow → Type 0) (p : NodeRow → Bool) (rows : List NodeRow)
    → All P rows
    → All P (keep_by p rows)
unfolding keep_by
All-keep_by P p [] h = tt
All-keep_by P p (r ∷ rows) (q, h) = elim (Bool-cases (p r)) [
  | inl e ↦ rw e (q, All-keep_by P p rows h)
  | inr e ↦ rw e (All-keep_by P p rows h)
]

pub All-set_where :
    (P Q : NodeRow → Type 0) (i : ℕ) (f : NodeRow → NodeRow)
    → ((r : NodeRow) → P r → Q (if r.node.id == i then f r else r))
    → (rows : List NodeRow) → All P rows
    → All Q (set_where i f rows)
unfolding set_where
All-set_where P Q i f g [] h = tt
All-set_where P Q i f g (r ∷ rows) (p, h) = (g r p, All-set_where P Q i f g rows h)

pub AreApart-keep_by :
    (p : NodeRow → Bool) (rows : List NodeRow) → AreApart rows → AreApart (keep_by p rows)
unfolding AreApart keep_by
AreApart-keep_by p [] h = tt
AreApart-keep_by p (r ∷ rows) (a, h) = elim (Bool-cases (p r)) [
  | inl e ↦ rw e (All-keep_by (Apart r) p rows a, AreApart-keep_by p rows h)
  | inr e ↦ rw e (AreApart-keep_by p rows h)
]

AreApart-concat :
    (rows : List NodeRow) (n : NodeRow)
    → AreApart rows
    → All (λ r. Apart r n) rows
    → AreApart (rows ++ n ∷ [])
unfolding AreApart
AreApart-concat [] n h k = (tt, tt)
AreApart-concat (r ∷ rows) n (a, h) (b, k) =
    (All-append (Apart r) rows (n ∷ []) a (b, tt), AreApart-concat rows n h k)

pub last_false :
    (a b c d e : Bool)
    → (a && b && c && d && not e) ≡ false
    → e ≡ false
    → a ≡ true
    → (b && c && d) ≡ false
last_false a b c d e h k l = ground arith

-- A row is apart from a row whose id and place are free.
pub free-Apart :
    (r q : NodeRow)
    → (r.node.id == q.node.id) ≡ false
    → (is_active r
        && r.node.workspace_id == q.node.workspace_id
        && (elim q.node.parent_id [ none ↦ false | some p ↦ is_just r.node.parent_id p ])
        && text_eq r.node.name q.node.name
        && not (r.node.id == q.node.id))
      ≡ false
    → Apart r q
unfolding columns_agree
free-Apart r q i o = record { ids = i; places = λ a b. last_false _ _ _ _ _ o i a }

insert_checked :
    (db : Db) (n : RawNode) (b : Bool)
    → HasUniqueNames db
    → has_node db n.id ≡ false
    → occupied db n ≡ false
    → AreApart (db.nodes ++ (record { node = n; trashed_at_ms = none }) ∷ [])
unfolding HasUniqueNames has_node occupied
insert_checked db n b h i o = AreApart-concat db.nodes _ h (
    All-map _ _ (λ r both. free-Apart r (record { node = n; trashed_at_ms = none }) both.0 both.1)
      db.nodes (All-zip _ _ db.nodes (All-none _ db.nodes i) (All-none _ db.nodes o)))

guards_of : (a b c d : Bool) → (not a && b && c && not d) ≡ true → (a ≡ false) × (d ≡ false)
guards_of a b c d h = ground arith

insert_ok-guards :
    (db : Db) (n : RawNode)
    → insert_ok db n ≡ true
    → (has_node db n.id ≡ false) × (occupied db n ≡ false)
unfolding insert_ok
insert_ok-guards db n g = guards_of _ _ _ _ g

pub insert_node-HasUniqueNames : (n : RawNode) → Keeps HasUniqueNames (insert_node n)
unfolding insert_node HasUniqueNames
insert_node-HasUniqueNames n = record {
  at = λ db h.
      Holds-guard HasUniqueNames (insert_ok db n) (done tt (inserted db n)) _
        (λ g. let free = insert_ok-guards db n g in ends (insert_checked db n true h free.0 free.1))
        (fails {e = constraint_violation} {t = db.ticks});
}

-- what the update makes of a row
abbrev pub set_row : ℕ → (NodeRow → NodeRow) → NodeRow → NodeRow
set_row i f r = if r.node.id == i then f r else r

if_same : (P : NodeRow → Type 0) (b : Bool) {r s : NodeRow} → P r → P s → P (if b then r else s)
if_same P true h k = h
if_same P false h k = k

set_row-IsQuiet : (i : ℕ) (f : NodeRow → NodeRow) → IsQuiet f → IsQuiet (set_row i f)
set_row-IsQuiet i f q = record {
  id = λ r. if_same (λ s. s.node.id ≡ r.node.id) _ (q.id r) refl;
  workspace = λ r. if_same (λ s. s.node.workspace_id ≡ r.node.workspace_id) _ (q.workspace r) refl;
  parent = λ r. if_same (λ s. s.node.parent_id ≡ r.node.parent_id) _ (q.parent r) refl;
  name = λ r. if_same (λ s. s.node.name ≡ r.node.name) _ (q.name r) refl;
  active = λ r.
      if_same (λ s. is_active s ≡ true → is_active r ≡ true) (r.node.id == i) (q.active r) (λ h. h);
}

quiet-Apart : (g : NodeRow → NodeRow) → IsQuiet g → (r q : NodeRow) → Apart r q → Apart (g r) (g q)
quiet-Apart g quiet r q a =
    let hr = quiet.workspace r in
    let hq = quiet.workspace q in
    let pr = quiet.parent r in
    let pq = quiet.parent q in
    let nr = quiet.name r in
    let nq = quiet.name q in
    record {
      ids = rw (quiet.id r, quiet.id q) a.ids;
      places = λ b c. let was = a.places (quiet.active r b) (quiet.active q c) in cc;
    }

-- a quiet update of some rows
pub AreApart-set_where :
    (i : ℕ) (f : NodeRow → NodeRow)
    → IsQuiet f
    → (rows : List NodeRow) → AreApart rows
    → AreApart (set_where i f rows)
unfolding AreApart set_where
AreApart-set_where i f q [] h = tt
AreApart-set_where i f q (r ∷ rows) (a, h) = (
  All-set_where (Apart r) (Apart (set_row i f r)) i f
      (λ s b. quiet-Apart (set_row i f) (set_row-IsQuiet i f q) r s b) rows a,
  AreApart-set_where i f q rows h,
)
