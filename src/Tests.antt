-- ===== src/Tests.antt =====
-- A database, and the theorems at it.
mod Paths
mod Trees
mod Batches
mod Edges
mod Writes
mod Contents
mod Searches
mod Lines
use fslite.Change.{change_row}
use fslite.Common.{
  ℕ, ◌+◌, ◌≡◌, refl, Bool, true, false, Option, none, some, List, [], ◌∷◌, Text, codes, inl, inr,
  Bool-cases, ◌==◌, arith, if◌then◌else◌,
}
use fslite.Path.{VirtualPath}
use fslite.Schema.{
  RawNode, NodeRow, WorkspaceRow, TrashRow, ChangeRow, ChangeKind, Db, directory_kind, file_kind,
  symlink_kind,
}
use fslite.Sql.{Host}
use fslite.Feed.{FeedIsDense, sequences, countdown, seq_of}
use fslite.Names.{HasUniqueNames, AreApart, Apart, columns_agree}

abbrev pub sample_host : Host
sample_host = record { uuid = λ n. 100 + n; clock = λ n. 1000 + n; rounds = 10; base64 = λ t. t }

abbrev pub sample_node : ℕ → Option ℕ → Text → ℕ → Option Text → RawNode
sample_node i p n k t = record {
  id = i;
  workspace_id = 1;
  parent_id = p;
  name = n;
  kind = k;
  size = 0;
  revision = 1;
  created_at_ms = 0;
  modified_at_ms = 0;
  accessed_at_ms = 0;
  content_generation_id = none;
  symlink_target = t;
}

abbrev pub sample_root : RawNode
sample_root = sample_node 10 none [] directory_kind none

abbrev pub docs_row : RawNode
docs_row = sample_node 11 (some 10) (codes "docs") directory_kind none

abbrev pub loop_row : RawNode
loop_row = sample_node 12 (some 10) (codes "loop") symlink_kind (some (codes "/loop"))

abbrev pub file_row : RawNode
file_row = sample_node 13 (some 11) (codes "a") file_kind none

abbrev pub old_row : RawNode
old_row = sample_node 14 (some 11) (codes "b") file_kind none

abbrev pub sample_trash : TrashRow
sample_trash = record {
  id = 20;
  workspace_id = 1;
  node_id = 14;
  original_parent_id = 11;
  original_name = codes "b";
  deleted_at_ms = 5;
}

abbrev pub active : RawNode → NodeRow
active n = record { node = n; trashed_at_ms = none }

abbrev pub sample_change : ℕ → ChangeRow
sample_change n = record {
  workspace_id = 1;
  sequence = n;
  kind = ChangeKind.created;
  node_id = some 11;
  old_path = none;
  new_path = none;
  revision = some 1;
  created_at_ms = 0;
  actor_json = [];
}

-- /docs, /docs/a, a link /loop to itself, and /docs/b in the trash
abbrev pub sample_db : Db
sample_db = record {
  workspaces = (record { id = 1; updated_at_ms = 0; max_file_bytes = 64; change_seq = 2 }) ∷ [];
  nodes =
      active sample_root
      ∷ active docs_row
      ∷ active loop_row
      ∷ active file_row
      ∷ (record { node = old_row; trashed_at_ms = some 5 })
      ∷ [];
  generations = [];
  chunks = [];
  attributes = [];
  trash = sample_trash ∷ [];
  changes = sample_change 2 ∷ sample_change 1 ∷ [];
  ticks = 0;
}

abbrev pub path_of : Text → VirtualPath
path_of t = record { canonical = t }

pub sample_db-FeedIsDense : FeedIsDense sample_db
unfolding FeedIsDense sequences countdown seq_of
sample_db-FeedIsDense = λ ws. elim (Bool-cases (1 == ws)) [ inl e ↦ rw e refl | inr e ↦ rw e refl ]

pub sample_db-HasUniqueNames : HasUniqueNames sample_db
unfolding HasUniqueNames AreApart columns_agree
sample_db-HasUniqueNames = (
  (
    record { ids = refl; places = λ a b. refl },
    (
      record { ids = refl; places = λ a b. refl },
      (
        record { ids = refl; places = λ a b. refl },
        (record { ids = refl; places = λ a b. refl }, tt),
      ),
    ),
  ),
  (
    (
      record { ids = refl; places = λ a b. refl },
      (
        record { ids = refl; places = λ a b. refl },
        (record { ids = refl; places = λ a b. refl }, tt),
      ),
    ),
    (
      (
        record { ids = refl; places = λ a b. refl },
        (record { ids = refl; places = λ a b. refl }, tt),
      ),
      ((record { ids = refl; places = λ a b. refl }, tt), (tt, tt)),
    ),
  ),
)

-- the sample after one more change
abbrev pub changed : ChangeKind → RawNode → Option Text → Option Text → ℕ → ℕ → Db
changed kind node old new r now = record sample_db {
  workspaces = (record { id = 1; updated_at_ms = now; max_file_bytes = 64; change_seq = 3 }) ∷ [];
  changes =
      change_row 1 3
        (record {
          kind = kind;
          node_id = some node.id;
          old_path = old;
          new_path = new;
          revision = some r;
        })
        [] now
      ∷ sample_db.changes;
}
