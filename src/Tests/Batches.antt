-- ===== src/Tests/Batches.antt =====
-- The theorems on batches, at the sample.
use fslite.Common.{
  ℕ, ap, ◌≡◌, refl, Bool, true, false, Option, none, some, List, [], ◌∷◌, Text, codes, All, length,
}
use fslite.Path.{segments, split, is_empty, name}
use fslite.Resolve.{
  resolve_following, walk, fetch_root, fetch_child, fetch_active, has_active_children,
}
use fslite.Mutate.Remove.{remove_tx, remove_node, remove_apply, remove_result}
use fslite.Purge.{
  purge_subtree, collect_generations, subtree, delete_node, is_gone, is_gone_id, delete_generations,
}
use fslite.Change.{append_change, bump_seq, insert_change}
use fslite.Fault.{not_found_code, FsError, of_path}
use fslite.Schema.{ChangeKind, Db}
use fslite.Sql.{done, find_by, any_by, keep_by, now_ms}
use fslite.Keeps.{Keeps}
use fslite.Keeps.Batches.{Leaves}
use fslite.Batch.{
  Capability, write, delete, BatchOperation, mkdir, move, remove, nothing, completed, failed_at,
  batch_loop, batch_end, batch, execute_batch_operation, has_capability, required_capability,
}
use fslite.Batch.Order.{batch-atomic, batch-completed, IsRefused, batch_loop-failed_at, StopsAt}
use fslite.Feed.{FeedIsDense}
use fslite.Feed.Operations.{execute_batch_operation-FeedIsDense, batch-FeedIsDense}
use fslite.Names.{HasUniqueNames}
use fslite.Names.Operations.{execute_batch_operation-HasUniqueNames, batch-HasUniqueNames}
use package.fslite.Tests.{
  sample_host, sample_db, active, sample_root, docs_row, loop_row, old_row, path_of,
  sample_db-FeedIsDense, sample_db-HasUniqueNames,
}

abbrev remove_of : Text → BatchOperation
remove_of t = remove (path_of t) (record { recursive = false; expected_revision = none })

abbrev some_operations : List BatchOperation
some_operations =
    mkdir (path_of (codes "/new"))
      (record { parents = false; exist_ok = false; expected_revision = none })
    ∷ move (path_of (codes "/docs/a")) (path_of (codes "/new/a"))
        (record { overwrite = false; expected_revision = some 1 })
    ∷ remove_of (codes "/docs")
    ∷ []

abbrev two_removals : List BatchOperation
two_removals = remove_of (codes "/docs/a") ∷ remove_of (codes "/nope") ∷ []

abbrev may_delete : List Capability
may_delete = delete ∷ []

abbrev is_allowed : BatchOperation → Bool
is_allowed o = has_capability may_delete (required_capability o)

abbrev not_found_at : Option ℕ → FsError
not_found_at i = record {
  code = not_found_code;
  message = of_path (path_of (codes "/nope"));
  details = i;
}

batch-FeedIsDense_example :
    Leaves FeedIsDense (batch sample_host 1 (write ∷ delete ∷ []) [] some_operations sample_db)
batch-FeedIsDense_example =
    batch-FeedIsDense sample_host 1 (write ∷ delete ∷ []) [] some_operations sample_db
      sample_db-FeedIsDense

batch-HasUniqueNames_example :
    Leaves HasUniqueNames (batch sample_host 1 (write ∷ delete ∷ []) [] some_operations sample_db)
batch-HasUniqueNames_example =
    batch-HasUniqueNames sample_host 1 (write ∷ delete ∷ []) [] some_operations sample_db
      sample_db-HasUniqueNames

execute_batch_operation-FeedIsDense_example :
    Keeps FeedIsDense (execute_batch_operation sample_host 1 [] (remove_of (codes "/docs/a")))
execute_batch_operation-FeedIsDense_example =
    execute_batch_operation-FeedIsDense sample_host 1 [] (remove_of (codes "/docs/a"))

execute_batch_operation-HasUniqueNames_example :
    Keeps HasUniqueNames (execute_batch_operation sample_host 1 [] (remove_of (codes "/docs/a")))
execute_batch_operation-HasUniqueNames_example =
    execute_batch_operation-HasUniqueNames sample_host 1 [] (remove_of (codes "/docs/a"))

abbrev one_tick : Db
one_tick = record sample_db { ticks = 1 }

batch-atomic_example :
    (one_tick ≡ record sample_db { ticks = 1 })
    × IsRefused is_allowed
        (execute_batch_operation sample_host 1 [])
        two_removals
        sample_db
        (not_found_at (some 1))
unfolding batch batch_loop batch_end has_capability required_capability execute_batch_operation
    remove_tx remove_node remove_apply resolve_following walk fetch_root fetch_child fetch_active
    find_by segments split is_empty name has_active_children any_by purge_subtree
    collect_generations subtree delete_node is_gone is_gone_id keep_by delete_generations now_ms
    append_change bump_seq insert_change remove_result
batch-atomic_example =
    batch-atomic sample_host 1 may_delete [] two_removals sample_db one_tick (not_found_at (some 1))
      refl

abbrev one_removal : List BatchOperation
one_removal = remove_of (codes "/docs/a") ∷ []

-- what the removal of /docs/a leaves
abbrev after_removal : Db
after_removal = record sample_db {
  workspaces = (record { id = 1; updated_at_ms = 1000; max_file_bytes = 64; change_seq = 3 }) ∷ [];
  nodes =
      active sample_root
      ∷ active docs_row
      ∷ active loop_row
      ∷ (record { node = old_row; trashed_at_ms = some 5 })
      ∷ [];
  changes =
      (record {
        workspace_id = 1;
        sequence = 3;
        kind = ChangeKind.removed;
        node_id = some 13;
        old_path = some (codes "/docs/a");
        new_path = none;
        revision = none;
        created_at_ms = 1000;
        actor_json = [];
      })
      ∷ sample_db.changes;
  ticks = 1;
}

one_removal_run :
    batch_loop is_allowed (execute_batch_operation sample_host 1 []) 0 [] one_removal sample_db
    ≡ done (completed (nothing ∷ [])) after_removal
unfolding batch_loop has_capability required_capability execute_batch_operation remove_tx
    remove_node remove_apply resolve_following walk fetch_root fetch_child fetch_active find_by
    segments split is_empty name has_active_children any_by purge_subtree collect_generations
    subtree delete_node is_gone is_gone_id keep_by delete_generations now_ms append_change bump_seq
    insert_change remove_result
one_removal_run = refl

batch-completed_example :
    All (λ o. is_allowed o ≡ true) one_removal × (length (nothing ∷ []) ≡ length one_removal)
unfolding batch batch_end
batch-completed_example =
    batch-completed sample_host 1 may_delete [] one_removal sample_db after_removal (nothing ∷ [])
      (ap (batch_end sample_db) one_removal_run)

two_removals_run :
    batch_loop is_allowed (execute_batch_operation sample_host 1 []) 0 [] two_removals sample_db
    ≡ done (failed_at 1 (not_found_at none)) after_removal
unfolding batch_loop has_capability required_capability execute_batch_operation remove_tx
    remove_node remove_apply resolve_following walk fetch_root fetch_child fetch_active find_by
    segments split is_empty name has_active_children any_by purge_subtree collect_generations
    subtree delete_node is_gone is_gone_id keep_by delete_generations now_ms append_change bump_seq
    insert_change remove_result
two_removals_run = refl

batch_loop-failed_at_example :
    StopsAt is_allowed
      (execute_batch_operation sample_host 1 [])
      two_removals
      0
      []
      1
      (not_found_at none)
      sample_db
      after_removal
batch_loop-failed_at_example =
    batch_loop-failed_at is_allowed (execute_batch_operation sample_host 1 []) two_removals 0 [] 1
      (not_found_at none) sample_db after_removal two_removals_run
