-- ===== src/Refusal.antt =====
-- Operations that have an outcome for each way out: what it takes to say that a run did its work,
-- or left the tables alone and says so.
pub mod Statements
pub mod Purging
pub mod Moving
pub mod Removing
pub mod Trashing
pub mod Restoring
pub mod Copying
pub mod Attributes
use fslite.Common.{ℕ, ◌≡◌, refl, subst, Bool, true, false, inl, inr, ◌⊎◌, if◌then◌else◌}
use fslite.Schema.{Db}
use fslite.Sql.{SqlError, Ran, done, failed, diverged, panicked, Sql, continue}

-- A run that ends with a value ends with that value and those tables.
pub data Ends {A : Type 0} (P : A → Db → Type 0) : Ran A → Type 0 where
  ends : {a : A} {db : Db} → P a db → Ends P (done a db)
  fails : {e : SqlError} {t : ℕ} → Ends P (failed e t)
  runs_on : Ends P diverged
  panics : Ends P panicked

module _ {A B : Type 0} {Q : A → Db → Type 0} (P : B → Db → Type 0) where
  pub Ends-continue :
      (r : Ran A) (f : A → Sql B)
      → Ends Q r
      → ((a : A) (db : Db) → Q a db → Ends P (f a db))
      → Ends P (continue r f)
  Ends-continue _ f (ends {a} {db} q) k = k a db q
  Ends-continue _ f fails k = fails
  Ends-continue _ f runs_on k = runs_on
  Ends-continue _ f panics k = panics

module _ {A : Type 0} (P : A → Db → Type 0) where
  pub Ends-done : (db db' : Db) (a : A) (r : Ran A) → Ends P r → r ≡ done a db' → P a db'
  Ends-done db db' a _ (ends {a = b} {db = mid} p) h =
      let same : b ≡ a = cc in
      let here : mid ≡ db' = cc in subst (P a) here (subst (λ c. P c mid) same p)
  Ends-done db db' a _ fails h = cc
  Ends-done db db' a _ runs_on h = cc
  Ends-done db db' a _ panics h = cc

  -- with the test at hand
  pub Ends-if :
      (b : Bool) (x y : Ran A)
      → (b ≡ true → Ends P x)
      → (b ≡ false → Ends P y)
      → Ends P (if b then x else y)
  Ends-if true x y h k = h refl
  Ends-if false x y h k = k refl

  pub Ends-choose :
      (b : Bool) (m n : Sql A) (db : Db)
      → (b ≡ true → Ends P (m db))
      → (b ≡ false → Ends P (n db))
      → Ends P ((if b then m else n) db)
  Ends-choose true m n db h k = h refl
  Ends-choose false m n db h k = k refl

-- The run did its work, as `S` says, or left the tables as they were; `did` reads off which.
abbrev pub Settled : {A : Type 0} → (A → Bool) → (A → Db → Type 0) → Db → A → Db → Type 0
Settled did S db a db' = S a db' ⊎ ((did a ≡ false) × (db' ≡ db))

module _ {A : Type 0} (did : A → Bool) (S : A → Db → Type 0) (db : Db) where
  pub declines : (a : A) → did a ≡ false → Ends (Settled did S db) (done a db)
  declines a h = ends (inr (h, refl))
