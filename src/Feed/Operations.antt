-- ===== src/Feed/Operations.antt =====
-- The change feed under the operations of crates/fslite-sqlite/src/mutate.rs, trash.rs,
-- directory.rs and content.rs, and under `batch`.
use fslite.Common.{ℕ, List, Text}
use fslite.Schema.{Db}
use fslite.Sql.{Host, insert_node, update_node, relocate_node}
use fslite.Batch.{Capability, BatchOperation, execute_batch_operation, batch}
use fslite.Keeps.{ends, fails, Keeps, Holds-if}
use fslite.Keeps.Statements.{IsKept}
use fslite.Keeps.Batches.{Leaves, execute_batch_operation-Keeps, batch-Leaves}
use package.fslite.Feed.{FeedIsDense, append_change-FeedIsDense}

-- Of the statements on the tables, `append` alone touches the feed.
FeedIsDense-IsKept : IsKept FeedIsDense
unfolding FeedIsDense insert_node update_node relocate_node
FeedIsDense-IsKept = record {
  other = λ db g c a t k h. h;
  keep_nodes = λ db p h. h;
  insert = λ n. record { at = λ db h. Holds-if FeedIsDense _ _ _ (ends h) fails };
  update = λ i f q. record { at = λ db h. ends h };
  relocate = λ i f q. record { at = λ db h. Holds-if FeedIsDense _ _ _ (ends h) fails };
  append = append_change-FeedIsDense;
}

-- Each of the eleven operations of a batch that comes to its end leaves a dense feed dense: in
-- every workspace the change rows, newest first, are numbered from `change_seq` down to 1 with no
-- gap.
pub execute_batch_operation-FeedIsDense :
    (host : Host) (ws : ℕ) (actor : Text) (operation : BatchOperation)
    → Keeps FeedIsDense (execute_batch_operation host ws actor operation)
execute_batch_operation-FeedIsDense host ws actor operation =
    execute_batch_operation-Keeps FeedIsDense-IsKept host ws actor operation

-- A batch that returns, with results or an error, leaves a dense feed dense.
pub batch-FeedIsDense :
    (host : Host) (ws : ℕ) (capabilities : List Capability) (actor : Text)
    (operations : List BatchOperation) (db : Db)
    → FeedIsDense db
    → Leaves FeedIsDense (batch host ws capabilities actor operations db)
batch-FeedIsDense host ws capabilities actor operations db h =
    batch-Leaves FeedIsDense-IsKept host ws capabilities actor operations db h
