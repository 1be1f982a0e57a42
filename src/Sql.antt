-- ===== src/Sql.antt =====
-- How a transaction runs: the statements that `rusqlite` hands to SQLite, and the host.
use fslite.Common.{
  ℕ, ◌+◌, Bool, true, false, not, ◌&&◌, ◌||◌, Option, none, some, List, [], ◌∷◌, ◌++◌, Text,
  text_eq, ◌==◌, if◌then◌else◌,
}
use fslite.Fault.{FsResult, ok, err, internal_storage_failure, of_storage}
use fslite.Schema.{RawNode, NodeRow, Db}

-- `rusqlite::Error`, by what raises it here.
pub data SqlError : Type 0 where
  constraint_violation query_returned_no_rows invalid_column_type : SqlError

-- A run ends with a value and the tables that it leaves, fails after some requests to the host,
-- goes on for more rounds than allowed, or meets an `expect` that does not hold.
pub data Ran {ℓ} (A : Type ℓ) : Type ℓ where
  done : A → Db → Ran A
  failed : SqlError → ℕ → Ran A
  diverged : Ran A
  panicked : Ran A

abbrev pub Sql {ℓ} : Type ℓ → Type ℓ
Sql A = Db → Ran A

module _ {ℓ κ} {A : Type ℓ} {B : Type κ} where
  abbrev pub continue : Ran A → (A → Sql B) → Ran B
  continue (done a db) f = f a db
  continue (failed e t) f = failed e t
  continue diverged f = diverged
  continue panicked f = panicked

infixl 5 ◌>>=◌ ◌>>◌
abbrev pub ◌>>=◌ {ℓ κ} : {A : Type ℓ} {B : Type κ} → Sql A → (A → Sql B) → Sql B
◌>>=◌ m f db = continue (m db) f

abbrev pub ◌>>◌ {ℓ} : {B : Type ℓ} → Sql (Unit {0}) → Sql B → Sql B
◌>>◌ m n db = continue (m db) (λ _. n)

abbrev pub pure {ℓ} : {A : Type ℓ} → A → Sql A
pure a db = done a db

abbrev pub raise {ℓ} : {A : Type ℓ} → SqlError → Sql A
raise e db = failed e db.ticks

abbrev pub gets {ℓ} : {A : Type ℓ} → (Db → A) → Sql A
gets f db = done (f db) db

-- What the program takes from outside: the `uuid` crate and the clock, as answers to numbered
-- requests, and `URL_SAFE_NO_PAD.encode`; and how many rounds a loop over the tables may take.
pub record Host : Type 0 where
  pub uuid : ℕ → ℕ
  pub clock : ℕ → ℕ
  pub rounds : ℕ
  pub base64 : Text → Text

module _ {ℓ} {A : Type ℓ} where
  unfoldable pub find_by : (A → Bool) → List A → Option A
  find_by p [] = none
  find_by p (x ∷ xs) = if p x then some x else find_by p xs

  unfoldable pub keep_by : (A → Bool) → List A → List A
  keep_by p [] = []
  keep_by p (x ∷ xs) = let rest = keep_by p xs in if p x then x ∷ rest else rest

  unfoldable pub any_by : (A → Bool) → List A → Bool
  any_by p [] = false
  any_by p (x ∷ xs) = p x || any_by p xs

-- `=` on a nullable column and a value
abbrev pub is_just : Option ℕ → ℕ → Bool
is_just none v = false
is_just (some u) v = u == v

abbrev pub is_none {ℓ} : {A : Type ℓ} → Option A → Bool
is_none none = true
is_none (some a) = false

-- "trashed_at_ms IS NULL"
abbrev pub is_active : NodeRow → Bool
is_active r = is_none r.trashed_at_ms

module _ (host : Host) where
  -- `NodeId::new()`, `TrashId::new()`
  unfoldable pub new_id : Sql ℕ
  new_id db = done (host.uuid db.ticks) (record db { ticks = db.ticks + 1 })

  -- `now_ms()`
  unfoldable pub now_ms : Sql ℕ
  now_ms db = done (host.clock db.ticks) (record db { ticks = db.ticks + 1 })

-- The partial unique index `nodes_parent_active`: another active row at the same place. A NULL
-- parent is equal to nothing.
unfoldable pub occupied : Db → RawNode → Bool
occupied db n =
    any_by
      (λ r.
        is_active r
        && r.node.workspace_id == n.workspace_id
        && (elim n.parent_id [ none ↦ false | some p ↦ is_just r.node.parent_id p ])
        && text_eq r.node.name n.name
        && not (r.node.id == n.id))
      db.nodes

unfoldable pub has_node : Db → ℕ → Bool
has_node db i = any_by (λ r. r.node.id == i) db.nodes

unfoldable pub has_generation : Db → ℕ → Bool
has_generation db i = any_by (λ g. g.id == i) db.generations

-- the foreign keys `parent_id` and `content_generation_id` of a row
unfoldable pub references_ok : Db → RawNode → Bool
references_ok db n =
    (elim n.parent_id [ none ↦ true | some p ↦ has_node db p ])
    && (elim n.content_generation_id [ none ↦ true | some g ↦ has_generation db g ])

-- the keys, the index and the references that an inserted row is held to
unfoldable pub insert_ok : Db → RawNode → Bool
insert_ok db n =
    not (has_node db n.id)
    && any_by (λ w. w.id == n.workspace_id) db.workspaces
    && references_ok db n
    && not (occupied db n)

abbrev pub inserted : Db → RawNode → Db
inserted db n = record db { nodes = db.nodes ++ (record { node = n; trashed_at_ms = none }) ∷ [] }

-- INSERT INTO nodes
unfoldable pub insert_node : RawNode → Sql (Unit {0})
insert_node n db =
    if insert_ok db n then done tt (inserted db n) else failed constraint_violation db.ticks

unfoldable pub set_where : ℕ → (NodeRow → NodeRow) → List NodeRow → List NodeRow
set_where i f [] = []
set_where i f (r ∷ rows) = (if r.node.id == i then f r else r) ∷ set_where i f rows

-- UPDATE nodes SET … WHERE id = i, for columns that no constraint is on
unfoldable pub update_node : ℕ → (NodeRow → NodeRow) → Sql (Unit {0})
update_node i f db = done tt (record db { nodes = set_where i f db.nodes })

-- UPDATE nodes SET parent_id, name, trashed_at_ms = NULL … WHERE id = i: the rows as they become
-- are held to the index and to the foreign key.
unfoldable pub relocation_ok : Db → ℕ → (NodeRow → NodeRow) → Bool
unfolding references_ok has_node has_generation
relocation_ok db i f = elim (find_by (λ r. r.node.id == i) db.nodes) [
  | none ↦ true
  | some r ↦ references_ok db (f r).node && (not (is_active (f r)) || not (occupied db (f r).node))
]

unfoldable pub relocate_node : ℕ → (NodeRow → NodeRow) → Sql (Unit {0})
relocate_node i f db =
    if relocation_ok db i f
    then done tt (record db { nodes = set_where i f db.nodes })
    else failed constraint_violation db.ticks

-- `transaction`, the statements, `commit`: an error rolls the tables back, but what the host was
-- asked stays asked.
pub data Returned {ℓ} (A : Type ℓ) : Type ℓ where
  returned : FsResult A → Db → Returned A
  never : Returned A
  panic : Returned A

unfoldable pub transact {ℓ} : {A : Type ℓ} → Sql A → Db → Returned A
transact m db = elim (m db) [
  | done a db' ↦ returned (ok a) db'
  | failed _ t ↦ returned (err (internal_storage_failure of_storage)) (record db { ticks = t })
  | diverged ↦ never
  | panicked ↦ panic
]

-- what is made of the outcome once the transaction is over
abbrev pub finish {ℓ κ} : {A : Type ℓ} {B : Type κ} → (A → FsResult B) → Returned A → Returned B
finish f (returned (ok a) db) = returned (f a) db
finish f (returned (err e) db) = returned (err e) db
finish f never = never
finish f panic = panic
