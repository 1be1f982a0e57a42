-- ===== src/Purge.antt =====
-- `purge_subtree` of crates/fslite-sqlite/src/mutate.rs and the deletions that it makes.
use fslite.Common.{
  ℕ, zero, suc, Bool, false, not, ◌&&◌, ◌||◌, Option, none, some, List, [], ◌∷◌, ◌++◌, length, ◌==◌,
  if◌then◌else◌,
}
use fslite.Schema.{NodeRow, Db}
use fslite.Sql.{
  constraint_violation, done, failed, diverged, Sql, ◌>>=◌, ◌>>◌, pure, Host, find_by, keep_by,
  any_by, is_just,
}

children_of : List NodeRow → List NodeRow → List NodeRow
children_of rows level = keep_by (λ n. any_by (λ s. is_just n.node.parent_id s.node.id) level) rows

-- WITH RECURSIVE subtree … UNION ALL: one level after the other. A cycle of parents never ends.
unfoldable pub subtree : ℕ → List NodeRow → List NodeRow → Option (List NodeRow)
unfolding children_of
subtree rounds rows [] = some []
subtree zero rows (r ∷ level) = none
subtree (suc rounds) rows (r ∷ level) = elim (subtree rounds rows (children_of rows (r ∷ level))) [
  | none ↦ none
  | some deeper ↦ some ((r ∷ level) ++ deeper)
]

-- the row or one of its ancestors, `rounds` of them at most
is_below : ℕ → List NodeRow → ℕ → NodeRow → Bool
is_below zero rows top r = false
is_below (suc rounds) rows top r = r.node.id == top || (elim r.node.parent_id [
  | none ↦ false
  | some p ↦ elim (find_by (λ q. q.node.id == p) rows) [
    | none ↦ false
    | some q ↦ is_below rounds rows top q
  ]
])

unfoldable pub is_gone : List NodeRow → ℕ → NodeRow → Bool
unfolding is_below
is_gone rows top r = is_below (suc (length rows)) rows top r

unfoldable pub is_gone_id : List NodeRow → ℕ → ℕ → Bool
is_gone_id rows top i = any_by (λ r. r.node.id == i && is_gone rows top r) rows

-- DELETE FROM nodes WHERE id = top, with the cascades of `nodes`, `attributes` and `trash`
unfoldable pub delete_node : ℕ → Sql (Unit {0})
delete_node top db = done tt (record db {
  nodes = keep_by (λ r. not (is_gone db.nodes top r)) db.nodes;
  attributes = keep_by (λ a. not (is_gone_id db.nodes top a.node_id)) db.attributes;
  trash = keep_by (λ t. not (is_gone_id db.nodes top t.node_id)) db.trash;
})

unfoldable pub is_referenced : Db → ℕ → Bool
is_referenced db g = any_by (λ r. is_just r.node.content_generation_id g) db.nodes

-- DELETE FROM content_generations WHERE id = g, with the cascade of `content_chunks`
unfoldable pub delete_generation : ℕ → Sql (Unit {0})
unfolding is_referenced
delete_generation g db =
    if is_referenced db g
    then failed constraint_violation db.ticks
    else done tt (record db {
      generations = keep_by (λ x. not (x.id == g)) db.generations;
      chunks = keep_by (λ c. not (c.generation_id == g)) db.chunks;
    })

unfoldable pub delete_generations : List ℕ → Sql (Unit {0})
delete_generations [] = pure tt
delete_generations (g ∷ gs) = delete_generation g >> delete_generations gs

pub generation_ids : List NodeRow → List ℕ
generation_ids [] = []
generation_ids (r ∷ rows) =
    let rest = generation_ids rows in
    elim r.node.content_generation_id [ none ↦ rest | some g ↦ g ∷ rest ]

unfoldable pub collect_generations : Host → ℕ → Sql (List ℕ)
unfolding generation_ids
collect_generations host node_id db =
    elim (subtree host.rounds db.nodes (keep_by (λ r. r.node.id == node_id) db.nodes)) [
      | none ↦ diverged
      | some rows ↦ done (generation_ids rows) db
    ]

-- `purge_subtree` of crates/fslite-sqlite/src/mutate.rs
unfoldable pub purge_subtree : Host → ℕ → Sql (Unit {0})
purge_subtree host node_id = do
  gens ← collect_generations host node_id
  delete_node node_id
  delete_generations gens
