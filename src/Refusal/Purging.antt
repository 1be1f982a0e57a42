-- ===== src/Refusal/Purging.antt =====
-- What `purge_subtree` of crates/fslite-sqlite/src/mutate.rs leaves.
use fslite.Common.{
  ℕ, ◌≡◌, refl, ap, ◌∙◌, not, Option, none, some, List, [], ◌∷◌, inl, inr, Bool-cases, Option-cases,
  ◌==◌,
}
use fslite.Schema.{RawNode, GenerationRow, ChunkRow, Db}
use fslite.Sql.{Host, Ran, keep_by}
use fslite.Purge.{
  delete_generation, delete_generations, delete_node, is_gone, is_gone_id, is_referenced,
  collect_generations, subtree, generation_ids, purge_subtree,
}
use package.fslite.Refusal.{Ends, ends, fails, runs_on, panics, Ends-continue}

abbrev swept : List GenerationRow → List ChunkRow → Db → Db
swept kept chunks db = record db { generations = kept; chunks = chunks }

-- The tables without some generations and their chunks.
record Swept (db db' : Db) : Type 0 where
  kept : List GenerationRow
  chunks : List ChunkRow
  is_swept : db' ≡ record db { generations = kept; chunks = chunks }

-- The tables without the node and what is below it: the rows, their attributes and trash entries,
-- and maybe some generations and chunks.
pub record Purged (db : Db) (top : ℕ) (db' : Db) : Type 0 where
  pub kept : List GenerationRow
  pub chunks : List ChunkRow
  pub is_purged : db' ≡ record db {
    nodes = keep_by (λ r. not (is_gone db.nodes top r)) db.nodes;
    generations = kept;
    chunks = chunks;
    attributes = keep_by (λ a. not (is_gone_id db.nodes top a.node_id)) db.attributes;
    trash = keep_by (λ t. not (is_gone_id db.nodes top t.node_id)) db.trash;
  }

-- What is cleared away before a node is put where there may be one.
abbrev pub Cleared : Db → Option RawNode → Db → Type 0
Cleared db none db' = db' ≡ db
Cleared db (some e) db' = Purged db e.id db'

delete_generation-Swept : (g : ℕ) (db : Db) → Ends (λ _. Swept db) (delete_generation g db)
unfolding delete_generation
delete_generation-Swept g db = elim (Bool-cases (is_referenced db g)) [
  | inl e ↦ rw (delete_generation, e) fails
  | inr e ↦
      rw (delete_generation, e)
        (ends (record {
          kept = keep_by (λ x. not (x.id == g)) db.generations;
          chunks = keep_by (λ c. not (c.generation_id == g)) db.chunks;
          is_swept = refl;
        }))
]

delete_generations-Swept : (gs : List ℕ) (db : Db) → Ends (λ _. Swept db) (delete_generations gs db)
unfolding delete_generations
delete_generations-Swept [] db =
    ends (record { kept = db.generations; chunks = db.chunks; is_swept = refl })
delete_generations-Swept (g ∷ gs) db =
    Ends-continue (λ _. Swept db) _ _ (delete_generation-Swept g db)
      (λ _ mid s. again mid s (delete_generations gs mid) (delete_generations-Swept gs mid))
  where
    again :
        (mid : Db)
        → Swept db mid
        → (r : Ran (Unit {0})) → Ends (λ _. Swept mid) r
        → Ends (λ _. Swept db) r
    again mid s _ (ends t) = ends (record {
      kept = t.kept;
      chunks = t.chunks;
      is_swept = t.is_swept ∙ ap (swept t.kept t.chunks) s.is_swept;
    })
    again mid s _ fails = fails
    again mid s _ runs_on = runs_on
    again mid s _ panics = panics

pub purge_subtree-Purged :
    (host : Host) (top : ℕ) (db : Db) → Ends (λ _. Purged db top) (purge_subtree host top db)
unfolding purge_subtree collect_generations delete_node
purge_subtree-Purged host top db =
    elim (Option-cases (subtree host.rounds db.nodes (keep_by (λ r. r.node.id == top) db.nodes))) [
      | inl e ↦ rw (purge_subtree, collect_generations, e) runs_on
      | inr (rows, e) ↦ rw (purge_subtree, collect_generations, e) (bare (generation_ids rows))
    ]
  where
    top_gone : Db
    top_gone = record db {
      nodes = keep_by (λ r. not (is_gone db.nodes top r)) db.nodes;
      attributes = keep_by (λ a. not (is_gone_id db.nodes top a.node_id)) db.attributes;
      trash = keep_by (λ t. not (is_gone_id db.nodes top t.node_id)) db.trash;
    }

    bare : (gs : List ℕ) → Ends (λ _. Purged db top) (delete_generations gs top_gone)
    bare gs = weaker (delete_generations gs top_gone) (delete_generations-Swept gs top_gone)
      where
        weaker : (r : Ran (Unit {0})) → Ends (λ _. Swept top_gone) r → Ends (λ _. Purged db top) r
        weaker _ (ends t) =
            ends (record { kept = t.kept; chunks = t.chunks; is_purged = t.is_swept })
        weaker _ fails = fails
        weaker _ runs_on = runs_on
        weaker _ panics = panics
