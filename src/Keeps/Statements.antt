-- ===== src/Keeps/Statements.antt =====
-- What an invariant of `nodes` and the change feed has to be kept by, and the helpers that the
-- operations share, under such an invariant.
use fslite.Common.{ℕ, ◌≡◌, Bool, true, List, [], ◌∷◌, Text, inl, inr, Option-cases, ◌==◌}
use fslite.Schema.{RawNode, NodeRow, TrashRow, GenerationRow, AttributeRow, ChunkRow, Db}
use fslite.Sql.{Host, new_id, now_ms, insert_node, update_node, relocate_node, keep_by, is_active}
use fslite.Change.{Note, append_change}
use fslite.Purge.{
  delete_node, delete_generation, delete_generations, collect_generations, purge_subtree, subtree,
}
use fslite.Content.{create_generation, finalize_generation, copy_chunks, insert_generation}
use fslite.Trash.{insert_trash, delete_trash}
use fslite.Mutate.Copy.{copy_attributes}
use package.fslite.Keeps.{
  ends, fails, runs_on, Keeps, Keeps-pure, Holds-if, Keeps-then, keeps_rules,
}

-- The update leaves the row where it is, and does not bring it out of the trash.
pub record IsQuiet (f : NodeRow → NodeRow) : Type 0 where
  pub id : (r : NodeRow) → (f r).node.id ≡ r.node.id
  pub workspace : (r : NodeRow) → (f r).node.workspace_id ≡ r.node.workspace_id
  pub parent : (r : NodeRow) → (f r).node.parent_id ≡ r.node.parent_id
  pub name : (r : NodeRow) → (f r).node.name ≡ r.node.name
  pub active : (r : NodeRow) → is_active (f r) ≡ true → is_active r ≡ true

-- The update keeps what identifies the row.
pub record KeepsIdentity (f : NodeRow → NodeRow) : Type 0 where
  pub id : (r : NodeRow) → (f r).node.id ≡ r.node.id
  pub workspace : (r : NodeRow) → (f r).node.workspace_id ≡ r.node.workspace_id

pub record IsKept (P : Db → Type 0) : Type 0 where
  pub other :
      (db : Db) (g : List GenerationRow) (c : List ChunkRow) (a : List AttributeRow)
      (t : List TrashRow) (k : ℕ)
      → P db
      → P (record db { generations = g; chunks = c; attributes = a; trash = t; ticks = k })
  pub keep_nodes :
      (db : Db) (p : NodeRow → Bool) → P db → P (record db { nodes = keep_by p db.nodes })
  pub insert : (n : RawNode) → Keeps P (insert_node n)
  pub update : (i : ℕ) (f : NodeRow → NodeRow) → IsQuiet f → Keeps P (update_node i f)
  pub relocate : (i : ℕ) (f : NodeRow → NodeRow) → KeepsIdentity f → Keeps P (relocate_node i f)
  pub append :
      (ws : ℕ) (note : Note) (actor : Text) (now : ℕ) → Keeps P (append_change ws note actor now)

module _ {P : Db → Type 0} (k : IsKept P) where
  pub new_id-Keeps : (host : Host) → Keeps P (new_id host)
  unfolding new_id
  new_id-Keeps host = record { at = λ db h. ends (k.other db _ _ _ _ _ h) }

  pub now_ms-Keeps : (host : Host) → Keeps P (now_ms host)
  unfolding now_ms
  now_ms-Keeps host = record { at = λ db h. ends (k.other db _ _ _ _ _ h) }

  insert_generation-Keeps : (g : GenerationRow) → Keeps P (insert_generation g)
  unfolding insert_generation
  insert_generation-Keeps g = record {
    at = λ db h. Holds-if P _ _ _ (ends (k.other db _ _ _ _ _ h)) fails;
  }

  pub create_generation-Keeps : (host : Host) (ws : ℕ) → Keeps P (create_generation host ws)
  unfolding create_generation
  create_generation-Keeps host ws =
      search (keeps_rules, new_id-Keeps, now_ms-Keeps, insert_generation-Keeps)

  pub finalize_generation-Keeps : (i n : ℕ) → Keeps P (finalize_generation i n)
  unfolding finalize_generation
  finalize_generation-Keeps i n = record { at = λ db h. ends (k.other db _ _ _ _ _ h) }

  pub copy_chunks-Keeps : (i n : ℕ) → Keeps P (copy_chunks i n)
  unfolding copy_chunks
  copy_chunks-Keeps i n = record {
    at = λ db h. Holds-if P _ _ _ fails (ends (k.other db _ _ _ _ _ h));
  }

  pub copy_attributes-Keeps : (i n : ℕ) → Keeps P (copy_attributes i n)
  unfolding copy_attributes
  copy_attributes-Keeps i n = record { at = λ db h. ends (k.other db _ _ _ _ _ h) }

  pub insert_trash-Keeps : (t : TrashRow) → Keeps P (insert_trash t)
  unfolding insert_trash
  insert_trash-Keeps t = record {
    at = λ db h. Holds-if P _ _ _ (ends (k.other db _ _ _ _ _ h)) fails;
  }

  pub delete_trash-Keeps : (i : ℕ) → Keeps P (delete_trash i)
  unfolding delete_trash
  delete_trash-Keeps i = record { at = λ db h. ends (k.other db _ _ _ _ _ h) }

  delete_node-Keeps : (i : ℕ) → Keeps P (delete_node i)
  unfolding delete_node
  delete_node-Keeps i = record { at = λ db h. ends (k.other _ _ _ _ _ _ (k.keep_nodes db _ h)) }

  pub delete_generation-Keeps : (i : ℕ) → Keeps P (delete_generation i)
  unfolding delete_generation
  delete_generation-Keeps i = record {
    at = λ db h. Holds-if P _ _ _ fails (ends (k.other db _ _ _ _ _ h));
  }

  delete_generations-Keeps : (is : List ℕ) → Keeps P (delete_generations is)
  unfolding delete_generations
  delete_generations-Keeps [] = Keeps-pure P tt
  delete_generations-Keeps (i ∷ is) =
      Keeps-then P _ _ (delete_generation-Keeps i) (delete_generations-Keeps is)

  collect_generations-Keeps : (host : Host) (i : ℕ) → Keeps P (collect_generations host i)
  unfolding collect_generations
  collect_generations-Keeps host i = record {
    at = λ db h.
        elim (Option-cases
          (subtree host.rounds db.nodes (keep_by (λ r. r.node.id == i) db.nodes))) [
            | inl e ↦ rw (collect_generations, e) runs_on
            | inr (rows, e) ↦ rw (collect_generations, e) (ends h)
          ];
  }

  pub purge_subtree-Keeps : (host : Host) (i : ℕ) → Keeps P (purge_subtree host i)
  unfolding purge_subtree
  purge_subtree-Keeps host i =
      search (keeps_rules, collect_generations-Keeps, delete_node-Keeps, delete_generations-Keeps)
