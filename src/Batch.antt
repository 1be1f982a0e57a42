-- ===== src/Batch.antt =====
-- `batch` of crates/fslite-sqlite/src/mutate.rs, with `Capability` and `BatchOperation` of
-- crates/fslite-core/src/fs.rs.
pub mod Order
use fslite.Common.{
  ℕ, zero, suc, ◌+◌, Bool, true, false, not, ◌||◌, Option, none, some, List, [], ◌∷◌, ◌++◌, Text,
  if◌then◌else◌,
}
use fslite.Path.{VirtualPath, LinkTarget, name, segments}
use fslite.Fault
use fslite.Fault.{
  FsError, FsResult, ok, err, permission_denied, already_exists, of_operation, of_path,
}
use fslite.Schema.{Db}
use fslite.Node.{Node}
use fslite.Sql.{
  Sql, Ran, done, failed, diverged, panicked, ◌>>=◌, pure, Host, is_none, Returned, returned, never,
  panic, transact,
}
use fslite.Directory.{mkdir_tx, mkdir_result}
use fslite.Content.Touch.{TouchOptions, touch_tx, touch_result}
use fslite.Mutate.Copy.{CopyOptions, copy_tx, copy_result}
use fslite.Mutate.Move.{MoveOptions, move_tx, move_result}
use fslite.Mutate.Remove.{RemoveOptions, remove_tx, remove_result}
use fslite.Mutate.Symlink.{CreateOptions, symlink_tx, symlink_result}
use fslite.Mutate.Attribute.{set_attribute_tx, remove_attribute_tx, attribute_result}
use fslite.Trash.{
  TrashEntry, trash_tx, trash_result, restore_tx, restore_result, purge_tx, purge_result,
}

pub data Capability : Type 0 where
  read write delete trash_restore workspace_admin : Capability

same_capability : Capability → Capability → Bool
same_capability read read = true
same_capability write write = true
same_capability delete delete = true
same_capability trash_restore trash_restore = true
same_capability workspace_admin workspace_admin = true
same_capability _ _ = false

-- `BTreeSet::contains`
unfoldable pub has_capability : List Capability → Capability → Bool
unfolding same_capability
has_capability [] c = false
has_capability (d ∷ ds) c = same_capability d c || has_capability ds c

pub data BatchOperation : Type 0 where
  mkdir : VirtualPath → CreateOptions → BatchOperation
  touch : VirtualPath → TouchOptions → BatchOperation
  copy : VirtualPath → VirtualPath → CopyOptions → BatchOperation
  move : VirtualPath → VirtualPath → MoveOptions → BatchOperation
  remove : VirtualPath → RemoveOptions → BatchOperation
  symlink : LinkTarget → VirtualPath → CreateOptions → BatchOperation
  trash : VirtualPath → Option ℕ → BatchOperation
  restore : ℕ → Option VirtualPath → Option ℕ → BatchOperation
  purge : ℕ → BatchOperation
  set_attribute : VirtualPath → Text → Text → Option ℕ → BatchOperation
  remove_attribute : VirtualPath → Text → Option ℕ → BatchOperation

pub data BatchResult : Type 0 where
  node : Node → BatchResult
  trash_entry : TrashEntry → BatchResult
  nothing : BatchResult

unfoldable pub required_capability : BatchOperation → Capability
required_capability (mkdir _ _) = write
required_capability (touch _ _) = write
required_capability (copy _ _ _) = write
required_capability (move _ _ _) = write
required_capability (symlink _ _ _) = write
required_capability (set_attribute _ _ _ _) = write
required_capability (remove_attribute _ _ _) = write
required_capability (remove _ _) = delete
required_capability (purge _) = delete
required_capability (trash _ _) = trash_restore
required_capability (restore _ _ _) = trash_restore

-- `to_step`: `BatchStepOutcome` is the result with its value wrapped.
abbrev pub to_step {ℓ} : {A : Type ℓ} → FsResult A → (A → BatchResult) → FsResult BatchResult
to_step (ok value) wrap = ok (wrap value)
to_step (err e) wrap = err e

module _ (host : Host) (ws : ℕ) (actor : Text) where
  unfoldable pub execute_batch_operation : BatchOperation → Sql (FsResult BatchResult)
  execute_batch_operation (mkdir path options) =
      if is_none (name path) then pure (err (already_exists (of_path path))) else do
        outcome ← mkdir_tx host ws options actor (segments path)
        pure (to_step (mkdir_result outcome path) node)
  execute_batch_operation (touch path options) = do
    outcome ← touch_tx host ws path actor options
    pure (to_step (touch_result outcome path) node)
  execute_batch_operation (copy from to options) = do
    outcome ← copy_tx host ws from to options actor
    pure (to_step (copy_result outcome from to) node)
  execute_batch_operation (move from to options) = do
    outcome ← move_tx host ws from to options actor
    pure (to_step (move_result outcome from to) node)
  execute_batch_operation (remove path options) = do
    outcome ← remove_tx host ws path options actor
    pure (to_step (remove_result outcome path) (λ _. nothing))
  execute_batch_operation (symlink target link options) =
      if is_none (name link) then pure (err (already_exists (of_path link))) else do
        outcome ← symlink_tx host ws link target.canonical options actor
        pure (to_step (symlink_result outcome link) node)
  execute_batch_operation (trash path expected) = do
    outcome ← trash_tx host ws actor path expected
    pure (to_step (trash_result outcome path actor) trash_entry)
  execute_batch_operation (restore trash_id destination expected) = do
    outcome ← restore_tx host ws trash_id actor destination expected
    pure (to_step (restore_result outcome trash_id) node)
  execute_batch_operation (purge trash_id) = do
    outcome ← purge_tx host ws trash_id actor
    pure (to_step (purge_result outcome trash_id) (λ _. nothing))
  execute_batch_operation (set_attribute path key value expected) = do
    outcome ← set_attribute_tx host ws path key actor value expected
    pure (to_step (attribute_result outcome path) node)
  execute_batch_operation (remove_attribute path key expected) = do
    outcome ← remove_attribute_tx host ws path key actor expected
    pure (to_step (attribute_result outcome path) node)

pub data BatchOutcome : Type 0 where
  completed : List BatchResult → BatchOutcome
  failed_at : ℕ → FsError → BatchOutcome

-- The loop of `batch` over any step; the results so far stand in front.
module _ (allowed : BatchOperation → Bool)
    (step : BatchOperation → Sql (FsResult BatchResult)) where
  unfoldable pub batch_loop : ℕ → List BatchResult → List BatchOperation → Sql BatchOutcome
  batch_loop index results [] db = done (completed results) db
  batch_loop index results (operation ∷ rest) db = elim (allowed operation) [
    | false ↦ done (failed_at index (permission_denied (of_operation index))) db
    | true ↦ elim (step operation db) [
      | done outcome db' ↦ elim outcome [
        | ok result ↦ batch_loop (suc index) (results ++ result ∷ []) rest db'
        | err e ↦ done (failed_at index e) db'
      ]
      | failed e t ↦ failed e t
      | diverged ↦ diverged
      | panicked ↦ panicked
    ]
  ]

-- Only a completed batch is committed: on `Failed` the transaction is dropped and rolls back.
unfoldable pub batch_end : Db → Ran BatchOutcome → Returned (List BatchResult)
batch_end db (done (completed results) db') = returned (ok results) db'
batch_end db (done (failed_at index e) db') =
    returned (err (record { code = e.code; message = e.message; details = some index }))
      (record db { ticks = db'.ticks })
batch_end db (failed e t) =
    returned (err (Fault.internal_storage_failure Fault.of_storage)) (record db { ticks = t })
batch_end db diverged = never
batch_end db panicked = panic

unfoldable pub batch :
    Host → ℕ → List Capability → Text → List BatchOperation → Db → Returned (List BatchResult)
unfolding batch_end
batch host ws capabilities actor operations db = batch_end db (
    batch_loop (λ o. has_capability capabilities (required_capability o))
      (execute_batch_operation host ws actor) 0 [] operations db)
