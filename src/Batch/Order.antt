-- ===== src/Batch/Order.antt =====
-- The loop of `batch` (crates/fslite-sqlite/src/mutate.rs): order, stop at the first failure, and
-- what is committed.
use fslite.Common.{
  ℕ, suc, ◌+◌, ◌≡◌, refl, sym, ap, ◌∙◌, subst, Bool, true, false, some, List, [], ◌∷◌, ◌++◌, Text,
  inl, inr, ◌⊎◌, Bool-cases, length, length-append, All, arith,
}
use fslite.Fault.{
  FsError, FsResult, ok, err, permission_denied, of_operation, internal_storage_failure, of_storage,
}
use fslite.Schema.{Db}
use fslite.Sql.{SqlError, Sql, Ran, done, failed, diverged, panicked, Host, returned}
use package.fslite.Batch.{
  Capability, BatchOperation, BatchResult, BatchOutcome, completed, failed_at, batch_loop,
  batch_end, batch, has_capability, required_capability, execute_batch_operation,
}

-- the ends of a run that has no value
data Stop : Type 0 where
  breaks : SqlError → ℕ → Stop
  hangs dies : Stop

abbrev stopped : {A : Type 0} → Stop → Ran A
stopped (breaks e t) = failed e t
stopped hangs = diverged
stopped dies = panicked

stopped-done : {A : Type 0} (s : Stop) (a : A) (db : Db) → stopped s ≡ done a db → ⊥
stopped-done (breaks e t) a db h = cc
stopped-done hangs a db h = cc
stopped-done dies a db h = cc

-- how a step ended
data Ended (r : Ran (FsResult BatchResult)) : Type 0 where
  went : (b : BatchResult) (db : Db) → r ≡ done (ok b) db → Ended r
  refused : (e : FsError) (db : Db) → r ≡ done (err e) db → Ended r
  stuck : (s : Stop) → r ≡ stopped s → Ended r

ended : (r : Ran (FsResult BatchResult)) → Ended r
ended (done (ok b) db) = went b db refl
ended (done (err e) db) = refused e db refl
ended (failed e t) = stuck (breaks e t) refl
ended diverged = stuck hangs refl
ended panicked = stuck dies refl

batch_end-atomic :
    (db db' : Db) (e : FsError) (r : Ran BatchOutcome)
    → batch_end db r ≡ returned (err e) db'
    → db' ≡ record db { ticks = db'.ticks }
unfolding batch_end
batch_end-atomic db db' e (done (completed results) after) k = cc
batch_end-atomic db db' e (done (failed_at index f) after) k = cc
batch_end-atomic db db' e (failed f t) k = cc
batch_end-atomic db db' e diverged k = cc
batch_end-atomic db db' e panicked k = cc

batch_end-ok :
    (db db' : Db) (results : List BatchResult) (r : Ran BatchOutcome)
    → batch_end db r ≡ returned (ok results) db'
    → r ≡ done (completed results) db'
unfolding batch_end
batch_end-ok db db' results (done (completed results') after) k = cc
batch_end-ok db db' results (done (failed_at index f) after) k = cc
batch_end-ok db db' results (failed f t) k = cc
batch_end-ok db db' results diverged k = cc
batch_end-ok db db' results panicked k = cc

-- what the loop came to, and what is made of it
batch_end-err :
    (db db' : Db) (e : FsError) (r : Ran BatchOutcome)
    → batch_end db r ≡ returned (err e) db'
    → ((j : ℕ) × (f : FsError) × (mid : Db) × (r ≡ done (failed_at j f) mid)
        × (e ≡ record { code = f.code; message = f.message; details = some j }))
      ⊎ ((f : SqlError) × (t : ℕ) × (r ≡ failed f t) × (e ≡ internal_storage_failure of_storage))
unfolding batch_end
batch_end-err db db' e (done (completed results) after) k = cc
batch_end-err db db' e (done (failed_at index f) after) k = inl (index, f, after, refl, cc)
batch_end-err db db' e (failed f t) k = inr (f, t, refl, cc)
batch_end-err db db' e diverged k = cc
batch_end-err db db' e panicked k = cc

module _ (allowed : BatchOperation → Bool)
    (step : BatchOperation → Sql (FsResult BatchResult)) where
  module _ (o : BatchOperation) (rest : List BatchOperation) (index : ℕ)
      (results : List BatchResult) (db : Db) where
    denied_first :
        allowed o ≡ false
        → batch_loop allowed step index results (o ∷ rest) db
          ≡ done (failed_at index (permission_denied (of_operation index))) db
    unfolding batch_loop
    denied_first a = rw (batch_loop, a) refl

    went_first :
        (b : BatchResult) (db' : Db)
        → allowed o ≡ true
        → step o db ≡ done (ok b) db'
        → batch_loop allowed step index results (o ∷ rest) db
          ≡ batch_loop allowed step (suc index) (results ++ b ∷ []) rest db'
    unfolding batch_loop
    went_first b db' a s = rw (batch_loop, a, s) refl

    refused_first :
        (e : FsError) (db' : Db)
        → allowed o ≡ true
        → step o db ≡ done (err e) db'
        → batch_loop allowed step index results (o ∷ rest) db ≡ done (failed_at index e) db'
    unfolding batch_loop
    refused_first e db' a s = rw (batch_loop, a, s) refl

    stuck_first :
        (t : Stop)
        → allowed o ≡ true
        → step o db ≡ stopped t
        → batch_loop allowed step index results (o ∷ rest) db ≡ stopped t
    unfolding batch_loop
    stuck_first (breaks e t) a s = rw (batch_loop, a, s) refl
    stuck_first hangs a s = rw (batch_loop, a, s) refl
    stuck_first dies a s = rw (batch_loop, a, s) refl

  -- what a loop that comes to an outcome did first
  data First (o : BatchOperation) (rest : List BatchOperation) (index : ℕ)
      (results : List BatchResult) (db : Db) (out : BatchOutcome) (db' : Db) : Type 0 where
    was_denied :
        allowed o ≡ false
        → out ≡ failed_at index (permission_denied (of_operation index))
        → db' ≡ db
        → First o rest index results db out db'
    was_refused :
        (e : FsError)
        → allowed o ≡ true
        → step o db ≡ done (err e) db'
        → out ≡ failed_at index e
        → First o rest index results db out db'
    went_on :
        (b : BatchResult) (mid : Db)
        → allowed o ≡ true
        → step o db ≡ done (ok b) mid
        → batch_loop allowed step (suc index) (results ++ b ∷ []) rest mid ≡ done out db'
        → First o rest index results db out db'

  first :
      (o : BatchOperation) (rest : List BatchOperation) (index : ℕ) (results : List BatchResult)
      → (db : Db) (out : BatchOutcome) (db' : Db)
      → batch_loop allowed step index results (o ∷ rest) db ≡ done out db'
      → First o rest index results db out db'
  first o rest index results db out db' h = elim (Bool-cases (allowed o)) [
    | inr a ↦
        let e = denied_first o rest index results db a in
        let out_is : out ≡ failed_at index (permission_denied (of_operation index)) = cc in
        let back : db' ≡ db = cc in was_denied a out_is back
    | inl a ↦ elim (ended (step o db)) [
      | went b mid s ↦ went_on b mid a s (sym (went_first o rest index results db b mid a s) ∙ h)
      | refused e mid s ↦
          let k = refused_first o rest index results db e mid a s in
          let here : step o db ≡ done (err e) db' = cc in
          let out_is : out ≡ failed_at index e = cc in was_refused e a here out_is
      | stuck t s ↦
          let k = stuck_first o rest index results db t a s in
          absurd (stopped-done t out db' (sym k ∙ h))
    ]
  ]

  -- A loop that completes was allowed every operation, and has one more result for each.
  pub batch_loop-completed :
      (xs : List BatchOperation) (index : ℕ) (results results' : List BatchResult) (db db' : Db)
      → batch_loop allowed step index results xs db ≡ done (completed results') db'
      → All (λ o. allowed o ≡ true) xs × (length results' ≡ length results + length xs)
  unfolding batch_loop
  batch_loop-completed [] index results results' db db' h =
      (tt, let same : results ≡ results' = cc in rw same (omega arith))
  batch_loop-completed (x ∷ xs) index results results' db db' h =
      elim (first x xs index results db _ db' h) [
        | was_denied a o d ↦ cc
        | was_refused e a s o ↦ cc
        | went_on b mid a s k ↦
            let rest = batch_loop-completed xs (suc index) (results ++ b ∷ []) results' mid db' k in
            let longer = length-append results (b ∷ []) in
            ((a, rest.0), rest.1 ∙ omega (arith, longer))
      ]

  -- How a loop from `db` came to fail at `j`: it did what stands before an operation, and that one
  -- is not allowed, or its step ended with the error.
  pub record StopsAt (xs : List BatchOperation) (index : ℕ) (results : List BatchResult) (j : ℕ)
      (e : FsError) (db db' : Db) : Type 0 where
    pub before : List BatchOperation
    pub operation : BatchOperation
    pub after : List BatchOperation
    pub so_far : List BatchResult
    pub mid : Db
    pub is_split : xs ≡ before ++ operation ∷ after
    pub is_index : j ≡ index + length before
    pub is_done : batch_loop allowed step index results before db ≡ done (completed so_far) mid
    pub is_stopped :
        ((allowed operation ≡ false) × (e ≡ permission_denied (of_operation j)) × (db' ≡ mid))
        ⊎ ((allowed operation ≡ true) × (step operation mid ≡ done (err e) db'))

  -- A loop that fails at an index completed all operations before it, and the operation there is
  -- one that is not allowed, or one whose step ended with the error.
  pub batch_loop-failed_at :
      (xs : List BatchOperation) (index : ℕ) (results : List BatchResult) (j : ℕ) (e : FsError)
      → (db db' : Db) → batch_loop allowed step index results xs db ≡ done (failed_at j e) db'
      → StopsAt xs index results j e db db'
  unfolding batch_loop
  batch_loop-failed_at [] index results j e db db' h = cc
  batch_loop-failed_at (x ∷ xs) index results j e db db' h =
      elim (first x xs index results db _ db' h) [
        | was_denied a o d ↦
            let at : j ≡ index = cc in
            record {
              before = [];
              operation = x;
              after = xs;
              so_far = results;
              mid = db;
              is_split = refl;
              is_index = omega (arith, at);
              is_done = refl;
              is_stopped = inl (a, cc, d);
            }
        | was_refused f a s o ↦
            let at : j ≡ index = cc in
            let same : f ≡ e = cc in
            record {
              before = [];
              operation = x;
              after = xs;
              so_far = results;
              mid = db;
              is_split = refl;
              is_index = omega (arith, at);
              is_done = refl;
              is_stopped = inr (a, subst (λ g. step x db ≡ done (err g) db') same s);
            }
        | went_on b mid a s k ↦
            let later = batch_loop-failed_at xs (suc index) (results ++ b ∷ []) j e mid db' k in
            let at = later.is_index in
            record {
              before = x ∷ later.before;
              operation = later.operation;
              after = later.after;
              so_far = later.so_far;
              mid = later.mid;
              is_split = ap (λ t. x ∷ t) later.is_split;
              is_index = omega (arith, at);
              is_done = went_first x later.before index results db b mid a s ∙ later.is_done;
              is_stopped = later.is_stopped;
            }
      ]

-- Why a batch from `db` ends with an error: its loop stopped at an operation, and the error is that
-- one with the operation's index, or a statement failed.
pub data IsRefused (allowed : BatchOperation → Bool)
    (step : BatchOperation → Sql (FsResult BatchResult)) (xs : List BatchOperation) (db : Db)
    (e : FsError) : Type 0 where
  stops :
      (j : ℕ) (f : FsError) (mid : Db)
      → StopsAt allowed step xs 0 [] j f db mid
      → e ≡ record { code = f.code; message = f.message; details = some j }
      → IsRefused allowed step xs db e
  breaks_off :
      (f : SqlError) (t : ℕ)
      → batch_loop allowed step 0 [] xs db ≡ failed f t
      → e ≡ internal_storage_failure of_storage
      → IsRefused allowed step xs db e

-- A batch that ends with an error leaves every table as it was, though the operations before the
-- one that failed had completed: the error names the index of an operation that is not allowed or
-- ends with that error, after all the operations before it completed; or it is the error for a
-- statement that failed.
pub batch-atomic :
    (host : Host) (ws : ℕ) (capabilities : List Capability) (actor : Text)
    (operations : List BatchOperation) (db db' : Db) (e : FsError)
    → batch host ws capabilities actor operations db ≡ returned (err e) db'
    → (db' ≡ record db { ticks = db'.ticks })
      × IsRefused
          (λ o. has_capability capabilities (required_capability o))
          (execute_batch_operation host ws actor)
          operations
          db
          e
unfolding batch
batch-atomic host ws capabilities actor operations db db' e h = (
  batch_end-atomic db db' e _ h,
  elim (batch_end-err db db' e _ h) [
    | inl (j, f, mid, k, m) ↦
        stops j f mid (batch_loop-failed_at _ _ operations 0 [] j f db mid k) m
    | inr (f, t, k, m) ↦ breaks_off f t k m
  ],
)

-- A batch that gives results was allowed every operation, and gives one result for each.
pub batch-completed :
    (host : Host) (ws : ℕ) (capabilities : List Capability) (actor : Text)
    (operations : List BatchOperation) (db db' : Db) (results : List BatchResult)
    → batch host ws capabilities actor operations db ≡ returned (ok results) db'
    → All (λ o. has_capability capabilities (required_capability o) ≡ true) operations
      × (length results ≡ length operations)
unfolding batch
batch-completed host ws capabilities actor operations db db' results h =
    let (all, size) =
      batch_loop-completed _ _ operations 0 [] results db db' (batch_end-ok db db' results _ h) in
    (all, omega (arith, size))
