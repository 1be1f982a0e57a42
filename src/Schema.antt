-- ===== src/Schema.antt =====
-- The tables of crates/fslite-sqlite/migrations, and the rows that the code reads from them.
-- Ids are the values of the UUIDs; columns of type INTEGER are numbers with no upper bound.
use fslite.Common.{ℕ, Bool, Option, List, Text}

-- `RawNode` of crates/fslite-sqlite/src/resolve.rs
pub record RawNode : Type 0 where
  pub id : ℕ
  pub workspace_id : ℕ
  pub parent_id : Option ℕ
  pub name : Text
  pub kind : ℕ
  pub size : ℕ
  pub revision : ℕ
  pub created_at_ms : ℕ
  pub modified_at_ms : ℕ
  pub accessed_at_ms : ℕ
  pub content_generation_id : Option ℕ
  pub symlink_target : Option Text

abbrev pub directory_kind : ℕ
directory_kind = 0

abbrev pub file_kind : ℕ
file_kind = 1

abbrev pub symlink_kind : ℕ
symlink_kind = 2

-- A row of `nodes`: the columns that are read, and `trashed_at_ms`.
pub record NodeRow : Type 0 where
  pub node : RawNode
  pub trashed_at_ms : Option ℕ

pub record WorkspaceRow : Type 0 where
  pub id : ℕ
  pub updated_at_ms : ℕ
  pub max_file_bytes : ℕ
  pub change_seq : ℕ

pub record GenerationRow : Type 0 where
  pub id : ℕ
  pub workspace_id : ℕ
  pub complete : Bool
  pub length : ℕ

pub record ChunkRow : Type 0 where
  pub generation_id : ℕ
  pub chunk_index : ℕ
  pub bytes : Text

pub record AttributeRow : Type 0 where
  pub node_id : ℕ
  pub key : Text
  pub value : Text

pub record TrashRow : Type 0 where
  pub id : ℕ
  pub workspace_id : ℕ
  pub node_id : ℕ
  pub original_parent_id : ℕ
  pub original_name : Text
  pub deleted_at_ms : ℕ

-- `ChangeKind` of crates/fslite-core/src/fs.rs
pub data ChangeKind : Type 0 where
  created modified copied moved removed trashed restored purged : ChangeKind
  attribute_set attribute_removed : ChangeKind

pub record ChangeRow : Type 0 where
  pub workspace_id : ℕ
  pub sequence : ℕ
  pub kind : ChangeKind
  pub node_id : Option ℕ
  pub old_path : Option Text
  pub new_path : Option Text
  pub revision : Option ℕ
  pub created_at_ms : ℕ
  pub actor_json : Text

-- The database, and how often the host has been asked for an id or the time.
pub record Db : Type 0 where
  pub workspaces : List WorkspaceRow
  pub nodes : List NodeRow
  pub generations : List GenerationRow
  pub chunks : List ChunkRow
  pub attributes : List AttributeRow
  pub trash : List TrashRow
  pub changes : List ChangeRow
  pub ticks : ℕ
