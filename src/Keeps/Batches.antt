-- ===== src/Keeps/Batches.antt =====
-- The operations of a batch and its loop, under such an invariant.
use fslite.Common.{ℕ, suc, Bool, List, [], ◌∷◌, ◌++◌, Text, inl, inr, Bool-cases}
use fslite.Fault.{FsResult, ok, err}
use fslite.Schema.{Db}
use fslite.Sql.{Host, Sql, Ran, done, failed, diverged, panicked, Returned, returned, never, panic}
use fslite.Batch.{
  Capability, BatchOperation, mkdir, touch, copy, move, remove, symlink, trash, restore, purge,
  set_attribute, remove_attribute, BatchResult, BatchOutcome, completed, failed_at,
  execute_batch_operation, batch_loop, batch_end, batch,
}
use package.fslite.Keeps.{Holds, ends, fails, runs_on, panics, Keeps, keeps_rules}
use package.fslite.Keeps.Statements.{IsKept}
use package.fslite.Keeps.Moving.{move_tx-Keeps, remove_tx-Keeps}
use package.fslite.Keeps.Making.{mkdir_tx-Keeps, symlink_tx-Keeps}
use package.fslite.Keeps.Writing.{set_attribute_tx-Keeps, remove_attribute_tx-Keeps, touch_tx-Keeps}
use package.fslite.Keeps.Copying.{copy_tx-Keeps}
use package.fslite.Keeps.Trashing.{trash_tx-Keeps, restore_tx-Keeps, purge_tx-Keeps}

-- What the tables satisfy when an operation is over, whatever became of it.
pub data Leaves {A : Type 0} (P : Db → Type 0) : Returned A → Type 0 where
  leaves : {a : FsResult A} {db : Db} → P db → Leaves P (returned a db)
  never_back : Leaves P never
  panicked_on : Leaves P panic

module _ {P : Db → Type 0} (k : IsKept P) (host : Host) (ws : ℕ) (actor : Text) where
  pub execute_batch_operation-Keeps :
      (operation : BatchOperation) → Keeps P (execute_batch_operation host ws actor operation)
  unfolding execute_batch_operation
  execute_batch_operation-Keeps (mkdir path options) = search (keeps_rules, mkdir_tx-Keeps k)
  execute_batch_operation-Keeps (touch path options) = search (keeps_rules, touch_tx-Keeps k)
  execute_batch_operation-Keeps (copy from to options) = search (keeps_rules, copy_tx-Keeps k)
  execute_batch_operation-Keeps (move from to options) = search (keeps_rules, move_tx-Keeps k)
  execute_batch_operation-Keeps (remove path options) = search (keeps_rules, remove_tx-Keeps k)
  execute_batch_operation-Keeps (symlink target link options) =
      search (keeps_rules, symlink_tx-Keeps k)
  execute_batch_operation-Keeps (trash path expected) = search (keeps_rules, trash_tx-Keeps k)
  execute_batch_operation-Keeps (restore i d e) = search (keeps_rules, restore_tx-Keeps k)
  execute_batch_operation-Keeps (purge i) = search (keeps_rules, purge_tx-Keeps k)
  execute_batch_operation-Keeps (set_attribute path key value expected) =
      search (keeps_rules, set_attribute_tx-Keeps k)
  execute_batch_operation-Keeps (remove_attribute path key expected) =
      search (keeps_rules, remove_attribute_tx-Keeps k)

-- what `batch_loop` makes of a step
Holds-step :
    {A : Type 0} (P : Db → Type 0) (r : Ran (FsResult A)) (index : ℕ)
    → (f : A → Db → Ran BatchOutcome) → Holds P r
    → ((a : A) (db : Db) → P db → Holds P (f a db))
    → Holds P (elim r [
      | done outcome db' ↦ elim outcome [
        | ok result ↦ f result db'
        | err e ↦ done (failed_at index e) db'
      ]
      | failed e t ↦ failed e t
      | diverged ↦ diverged
      | panicked ↦ panicked
    ])
Holds-step P _ index f (ends {a = ok a} {db} h) kf = kf a db h
Holds-step P _ index f (ends {a = err e} {db} h) kf = ends h
Holds-step P _ index f fails kf = fails
Holds-step P _ index f runs_on kf = runs_on
Holds-step P _ index f panics kf = panics

module _ (P : Db → Type 0) (allowed : BatchOperation → Bool)
    (step : BatchOperation → Sql (FsResult BatchResult))
    (step-Keeps : (o : BatchOperation) → Keeps P (step o)) where
  pub batch_loop-Keeps :
      (operations : List BatchOperation) (index : ℕ) (results : List BatchResult)
      → Keeps P (batch_loop allowed step index results operations)
  unfolding batch_loop
  batch_loop-Keeps [] index results = record { at = λ db h. ends h }
  batch_loop-Keeps (o ∷ rest) index results = record {
    at = λ db h. elim (Bool-cases (allowed o)) [
      | inr e ↦ rw (batch_loop, e) (ends h)
      | inl e ↦
          rw (batch_loop, e)
            (Holds-step P _ _ _ ((step-Keeps o).at db h) (λ result db' h'.
              (batch_loop-Keeps rest (suc index) (results ++ result ∷ [])).at db' h'))
    ];
  }

-- What a batch leaves: the tables at its start or those its loop came to.
batch_end-Leaves :
    {P : Db → Type 0} (k : IsKept P) (db : Db)
    → (r : Ran BatchOutcome) → P db
    → Holds P r
    → Leaves P (batch_end db r)
unfolding batch_end
batch_end-Leaves k db _ h (ends {a = completed results} h') = leaves h'
batch_end-Leaves k db _ h (ends {a = failed_at index e} h') = leaves (k.other db _ _ _ _ _ h)
batch_end-Leaves k db _ h fails = leaves (k.other db _ _ _ _ _ h)
batch_end-Leaves k db _ h runs_on = never_back
batch_end-Leaves k db _ h panics = panicked_on

pub batch-Leaves :
    {P : Db → Type 0} (k : IsKept P) (host : Host) (ws : ℕ)
    → (capabilities : List Capability) (actor : Text) (operations : List BatchOperation) (db : Db)
    → P db
    → Leaves P (batch host ws capabilities actor operations db)
unfolding batch
batch-Leaves k host ws capabilities actor operations db h = batch_end-Leaves k db _ h (
    (batch_loop-Keeps _ _ _ (execute_batch_operation-Keeps k host ws actor) operations 0 []).at db
      h)
