-- ===== src/Names/Lookup.antt =====
-- `fetch_child` of crates/fslite-sqlite/src/resolve.rs where names are unique.
use fslite.Common.{
  ℕ, ◌≡◌, refl, ap, subst, Bool, true, false, ◌&&◌, Option, some, List, [], ◌∷◌, ◌++◌, Text, ◌==◌,
  inl, inr, Bool-cases, ==_refl, text_eq, text_eq_refl, All, arith,
}
use fslite.Schema.{NodeRow, Db}
use fslite.Sql.{is_active, is_just, find_by}
use fslite.Resolve.{fetch_child, fetch_active, option_node, is_child_of}
use package.fslite.Names.{HasUniqueNames, AreApart, Apart, columns_agree}

-- what `fetch_child` asks of a row
abbrev asked : ℕ → ℕ → Text → NodeRow → Bool
asked ws parent name r = is_active r && (is_child_of ws parent r.node && text_eq r.node.name name)

asked_apart : (a b c d : Bool) → (a ≡ true → (b && c && d) ≡ false) → (a && ((b && c) && d)) ≡ false
asked_apart a b c d h = elim (Bool-cases a) [
  | inl e ↦ let k = h e in ground arith
  | inr e ↦ ground arith
]

asked_self :
    (r : NodeRow) (parent : ℕ)
    → is_active r ≡ true
    → r.node.parent_id ≡ some parent
    → asked r.node.workspace_id parent r.node.name r ≡ true
asked_self r parent a p =
    rw (a, p, ==_refl r.node.workspace_id, ==_refl parent, text_eq_refl r.node.name) refl

free_of :
    (u : ℕ) (o : Option ℕ) (m : Text) (v : ℕ) (q : Option ℕ) (n : Text) (parent : ℕ)
    → q ≡ some parent
    → columns_agree u o m v q n ≡ false
    → (u == v && is_just o parent && text_eq m n) ≡ false
unfolding columns_agree
free_of u o m v q n parent p h = subst (λ x. columns_agree u o m v x n ≡ false) p h

all_middle :
    (P : NodeRow → Type 0) (before after : List NodeRow) (r : NodeRow)
    → All P (before ++ r ∷ after)
    → P r
all_middle P [] after r (p, h) = p
all_middle P (q ∷ before) after r (p, h) = all_middle P before after r h

asked_before :
    (q r : NodeRow) (parent : ℕ)
    → is_active r ≡ true
    → r.node.parent_id ≡ some parent
    → Apart q r
    → asked r.node.workspace_id parent r.node.name q ≡ false
asked_before q r parent a p apart =
    asked_apart (is_active q) (q.node.workspace_id == r.node.workspace_id)
      (is_just q.node.parent_id parent) (text_eq q.node.name r.node.name)
      (λ b.
        free_of q.node.workspace_id q.node.parent_id q.node.name r.node.workspace_id
          r.node.parent_id r.node.name parent p (apart.places b a))

find_by-first :
    (before after : List NodeRow) (r : NodeRow) (parent : ℕ)
    → is_active r ≡ true
    → r.node.parent_id ≡ some parent
    → AreApart (before ++ r ∷ after)
    → find_by (asked r.node.workspace_id parent r.node.name) (before ++ r ∷ after) ≡ some r
unfolding find_by AreApart
find_by-first [] after r parent a p h = rw (asked_self r parent a p) refl
find_by-first (q ∷ before) after r parent a p (apart, h) =
    rw (asked_before q r parent a p (all_middle (Apart q) before after r apart))
      (find_by-first before after r parent a p h)

-- Where ids and names are unique, looking up the name of an active row below its parent gives that
-- row, wherever it stands in the table.
pub fetch_child_unique :
    (db : Db) (before after : List NodeRow) (r : NodeRow) (parent : ℕ)
    → HasUniqueNames db
    → db.nodes ≡ before ++ r ∷ after
    → is_active r ≡ true
    → r.node.parent_id ≡ some parent
    → fetch_child db r.node.workspace_id parent r.node.name ≡ some r.node
unfolding HasUniqueNames fetch_child fetch_active
fetch_child_unique db before after r parent h e a p =
    rw e (ap option_node (find_by-first before after r parent a p (subst AreApart e h)))
