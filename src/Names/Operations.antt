-- ===== src/Names/Operations.antt =====
-- Ids and names under the operations of crates/fslite-sqlite/src/mutate.rs, trash.rs, directory.rs
-- and content.rs, and what the look-ups of crates/fslite-sqlite/src/resolve.rs make of them.
use fslite.Common.{ℕ, List, Text, ◌==◌, inl, inr, Option-cases}
use fslite.Schema.{Db}
use fslite.Sql.{Host, find_by, update_node}
use fslite.Batch.{Capability, BatchOperation, execute_batch_operation, batch}
use fslite.Keeps.{ends, fails, Keeps, Holds-if}
use fslite.Change.{Note, append_change, insert_change, bump_seq}
use fslite.Keeps.Statements.{IsKept}
use fslite.Keeps.Batches.{Leaves, execute_batch_operation-Keeps, batch-Leaves}
use package.fslite.Names.{
  HasUniqueNames, insert_node-HasUniqueNames, AreApart-set_where, AreApart-keep_by,
}
use package.fslite.Names.Relocation.{relocate_node-HasUniqueNames}

append_change-HasUniqueNames :
    (ws : ℕ) (note : Note) (actor : Text) (now : ℕ)
    → Keeps HasUniqueNames (append_change ws note actor now)
unfolding append_change HasUniqueNames insert_change
append_change-HasUniqueNames ws note actor now = record {
  at = λ db h. elim (Option-cases (find_by (λ w. w.id == ws) (bump_seq ws now db.workspaces))) [
    | inl e ↦ rw (append_change, e) fails
    | inr (w, e) ↦ rw (append_change, e) (Holds-if HasUniqueNames _ _ _ fails (ends h))
  ];
}

HasUniqueNames-IsKept : IsKept HasUniqueNames
unfolding HasUniqueNames update_node
HasUniqueNames-IsKept = record {
  other = λ db g c a t k h. h;
  keep_nodes = λ db p h. AreApart-keep_by p db.nodes h;
  insert = insert_node-HasUniqueNames;
  update = λ i f q. record { at = λ db h. ends (AreApart-set_where i f q db.nodes h) };
  relocate = relocate_node-HasUniqueNames;
  append = append_change-HasUniqueNames;
}

-- Each of the eleven operations of a batch that comes to its end keeps the rows of `nodes` apart:
-- their ids differ, and no two active rows have the same workspace, parent and name.
pub execute_batch_operation-HasUniqueNames :
    (host : Host) (ws : ℕ) (actor : Text) (operation : BatchOperation)
    → Keeps HasUniqueNames (execute_batch_operation host ws actor operation)
execute_batch_operation-HasUniqueNames host ws actor operation =
    execute_batch_operation-Keeps HasUniqueNames-IsKept host ws actor operation

-- A batch that returns, with results or an error, keeps the rows of `nodes` apart.
pub batch-HasUniqueNames :
    (host : Host) (ws : ℕ) (capabilities : List Capability) (actor : Text)
    (operations : List BatchOperation) (db : Db)
    → HasUniqueNames db
    → Leaves HasUniqueNames (batch host ws capabilities actor operations db)
batch-HasUniqueNames host ws capabilities actor operations db h =
    batch-Leaves HasUniqueNames-IsKept host ws capabilities actor operations db h
