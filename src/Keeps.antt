-- ===== src/Keeps.antt =====
-- Invariants of transactions, and how they pass through a sequence of statements.
pub mod Statements
pub mod Moving
pub mod Making
pub mod Writing
pub mod Copying
pub mod Trashing
pub mod Batches
use fslite.Common.{
  ℕ, ◌≡◌, refl, Bool, true, false, Option, none, some, List, [], ◌∷◌, if◌then◌else◌, inl, inr,
}
use fslite.Schema.{RawNode, NodeRow, TrashRow, GenerationRow, AttributeRow, ChunkRow, Db}
use fslite.Sql.{
  Ran, done, failed, diverged, panicked, Sql, ◌>>=◌, ◌>>◌, pure, continue, Host, new_id, now_ms,
  SqlError,
}

-- A run that came to its end left tables that satisfy `P`.
pub data Holds {A : Type 0} (P : Db → Type 0) : Ran A → Type 0 where
  ends : {a : A} {db : Db} → P db → Holds P (done a db)
  fails : {e : SqlError} {t : ℕ} → Holds P (failed e t)
  runs_on : Holds P diverged
  panics : Holds P panicked

pub record Keeps {A : Type 0} (P : Db → Type 0) (m : Sql A) : Type 0 where
  pub at : (db : Db) → P db → Holds P (m db)

module _ {A : Type 0} (P : Db → Type 0) where
  pub Keeps-pure : (a : A) → Keeps P (pure a)
  Keeps-pure a = record { at = λ db h. ends h }

  pub Keeps-panic : Keeps {A = A} P (λ db. panicked)
  Keeps-panic = record { at = λ db h. panics }

  pub Keeps-if : (b : Bool) (m n : Sql A) → Keeps P m → Keeps P n → Keeps P (if b then m else n)
  Keeps-if true m n h k = h
  Keeps-if false m n h k = k

  pub Holds-if : (b : Bool) (x y : Ran A) → Holds P x → Holds P y → Holds P (if b then x else y)
  Holds-if true x y h k = h
  Holds-if false x y h k = k

  -- with the test that guards the first branch at hand
  pub Holds-guard :
      (b : Bool) (x y : Ran A) → (b ≡ true → Holds P x) → Holds P y → Holds P (if b then x else y)
  Holds-guard true x y h k = h refl
  Holds-guard false x y h k = k

module _ {A B : Type 0} (P : Db → Type 0) where
  pub Holds-continue :
      (r : Ran A) (f : A → Sql B) → Holds P r → ((a : A) → Keeps P (f a)) → Holds P (continue r f)
  Holds-continue _ f (ends {a} {db} h) k = (k a).at db h
  Holds-continue _ f fails k = fails
  Holds-continue _ f runs_on k = runs_on
  Holds-continue _ f panics k = panics

  pub Keeps-bind :
      (m : Sql A) (f : A → Sql B) → Keeps P m → ((a : A) → Keeps P (f a)) → Keeps P (m >>= f)
  Keeps-bind m f km kf = record { at = λ db h. Holds-continue (m db) f (km.at db h) kf }

module _ {B : Type 0} (P : Db → Type 0) where
  pub Keeps-then : (m : Sql (Unit {0})) (n : Sql B) → Keeps P m → Keeps P n → Keeps P (m >> n)
  Keeps-then m n km kn = record {
    at = λ db h. Holds-continue P (m db) (λ _. n) (km.at db h) (λ _. kn);
  }

pub ruleset keeps_rules = (Keeps-pure, Keeps-panic, Keeps-if, Keeps-bind, Keeps-then)
