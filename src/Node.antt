-- ===== src/Node.antt =====
-- `NodeKind` and `Node` of crates/fslite-core/src/model.rs, and `RawNode::into_node`. The ids that
-- are stored were rendered by the `uuid` crate, so that parsing them back does not fail.
use fslite.Common.{ℕ, Option, none, some, List, [], Text, ◌==◌, if◌then◌else◌}
use fslite.Fault.{FsResult, ok, err, internal_storage_failure, of_storage}
use fslite.Schema.{RawNode}

pub data NodeKind : Type 0 where
  directory file symlink : NodeKind

pub record Node : Type 0 where
  pub workspace_id : ℕ
  pub id : ℕ
  pub parent_id : Option ℕ
  pub name : Text
  pub kind : NodeKind
  pub logical_size : ℕ
  pub created_at_ms : ℕ
  pub modified_at_ms : ℕ
  pub accessed_at_ms : ℕ
  pub revision : ℕ
  pub attributes : List (Text × Text)

-- `Revision::new`
unfoldable pub revision_new : ℕ → Option ℕ
revision_new value = if value == 0 then none else some value

unfoldable pub kind_of_code : ℕ → Option NodeKind
kind_of_code code =
    if code == 0
    then some directory
    else if code == 1
    then some file
    else if code == 2
    then some symlink
    else none

unfoldable pub with_kind : RawNode → NodeKind → FsResult Node
unfolding revision_new
with_kind row kind = elim (revision_new row.revision) [
  | none ↦ err (internal_storage_failure of_storage)
  | some revision ↦ ok (record {
    workspace_id = row.workspace_id;
    id = row.id;
    parent_id = row.parent_id;
    name = row.name;
    kind = kind;
    logical_size = row.size;
    created_at_ms = row.created_at_ms;
    modified_at_ms = row.modified_at_ms;
    accessed_at_ms = row.accessed_at_ms;
    revision = revision;
    attributes = [];
  })
]

unfoldable pub into_node : RawNode → FsResult Node
unfolding kind_of_code with_kind
into_node row = elim (kind_of_code row.kind) [
  | none ↦ err (internal_storage_failure of_storage)
  | some kind ↦ with_kind row kind
]
