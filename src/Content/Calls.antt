-- ===== src/Content/Calls.antt =====
-- The asynchronous functions of crates/fslite-sqlite/src/content.rs: each `conn.call(…).await` is
-- one run of statements on the connection's thread, and an error ends the function by `?`. No
-- other call comes between those of one function here.
use fslite.Common.{ℕ}
use fslite.Fault.{FsResult, ok, err}
use fslite.Schema.{Db}
use fslite.Sql.{Sql, Returned, returned, never, panic, transact}
use fslite.Purge.{delete_generation}

abbrev pub Async {ℓ} : Type ℓ → Type ℓ
Async A = Db → Returned A

module _ {ℓ κ} {A : Type ℓ} {B : Type κ} where
  abbrev pub awaited : Returned A → (A → Async B) → Returned B
  awaited (returned (ok a) db) f = f a db
  awaited (returned (err e) db) f = returned (err e) db
  awaited never f = never
  awaited panic f = panic

infixl 5 ◌>>=◌ ◌>>◌
abbrev pub ◌>>=◌ {ℓ κ} : {A : Type ℓ} {B : Type κ} → Async A → (A → Async B) → Async B
◌>>=◌ m f db = awaited (m db) f

abbrev pub ◌>>◌ {ℓ} : {B : Type ℓ} → Async (Unit {0}) → Async B → Async B
◌>>◌ m n db = awaited (m db) (λ _. n)

abbrev pub done {ℓ} : {A : Type ℓ} → FsResult A → Async A
done r db = returned r db

abbrev pub call {ℓ} : {A : Type ℓ} → Sql A → Async A
call = transact

-- `ChunkWriter::abort` and `delete_generation_async`: the outcome of the call is dropped.
unfoldable pub abort : ℕ → Async (Unit {0})
abort generation db = elim (call (delete_generation generation) db) [
  | returned _ db' ↦ returned (ok tt) db'
  | never ↦ never
  | panic ↦ panic
]

-- if let Err(err) = … { writer.abort().await; return Err(err); }
unfoldable pub or_abort {ℓ} : {A : Type ℓ} → ℕ → Async A → Async A
or_abort generation m db = elim (m db) [
  | returned r db' ↦ elim r [
    | ok a ↦ returned (ok a) db'
    | err e ↦ (abort generation >> done (err e)) db'
  ]
  | never ↦ never
  | panic ↦ panic
]
