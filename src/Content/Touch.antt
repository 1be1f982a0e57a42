-- ===== src/Content/Touch.antt =====
-- `finalize_tx`, `touch_tx`, `touch_result` and `touch` of crates/fslite-sqlite/src/content.rs.
use fslite.Common.{ℕ, ◌+◌, Bool, true, not, Option, none, some, Text, ◌==◌, if◌then◌else◌}
use fslite.Path.{VirtualPath, name, parent}
use fslite.Fault.{FsResult, err, not_found, wrong_node_type, revision_conflict, of_path}
use fslite.Schema.{RawNode, Db, directory_kind, file_kind, ChangeKind}
use fslite.Node.{Node, into_node}
use fslite.Sql.{
  Sql, done, panicked, ◌>>=◌, ◌>>◌, pure, Host, new_id, now_ms, insert_node, update_node, Returned,
  transact, finish,
}
use fslite.Change.{append_change}
use fslite.Purge.{delete_generation}
use fslite.Resolve.{resolve, fetch_by_id}
use fslite.Mutate.{conflicts}
use package.fslite.Content.{create_generation, finalize_generation}

pub record TouchOptions : Type 0 where
  pub create : Bool
  pub expected_revision : Option ℕ

pub record FinalizeParams : Type 0 where
  pub allow_create : Bool
  pub expected_revision : Option ℕ

pub data FinalizeOutcome : Type 0 where
  applied : RawNode → FinalizeOutcome
  missing wrong_kind conflict : FinalizeOutcome

pub data TouchOutcome : Type 0 where
  touched created : RawNode → TouchOutcome
  missing wrong_kind conflict : TouchOutcome

unfoldable pub touch_result : TouchOutcome → VirtualPath → FsResult Node
touch_result (TouchOutcome.touched row) path = into_node row
touch_result (TouchOutcome.created row) path = into_node row
touch_result TouchOutcome.missing path = err (not_found (of_path path))
touch_result TouchOutcome.wrong_kind path = err (wrong_node_type (of_path path))
touch_result TouchOutcome.conflict path = err (revision_conflict (of_path path))

abbrev pub file_row : ℕ → ℕ → ℕ → Text → ℕ → ℕ → ℕ → RawNode
file_row node_id ws parent_id file_name length generation now = record {
  id = node_id;
  workspace_id = ws;
  parent_id = some parent_id;
  name = file_name;
  kind = file_kind;
  size = length;
  revision = 1;
  created_at_ms = now;
  modified_at_ms = now;
  accessed_at_ms = now;
  content_generation_id = some generation;
  symlink_target = none;
}

unfoldable pub delete_old : Option ℕ → ℕ → Sql (Unit {0})
delete_old none new = pure tt
delete_old (some old) new = if not (old == new) then delete_generation old else pure tt

module _ (host : Host) (ws : ℕ) (path : VirtualPath) (actor : Text) where
  unfoldable pub finalize_create : ℕ → Text → ℕ → ℕ → Sql FinalizeOutcome
  finalize_create parent_id file_name generation length = do
    node_id ← new_id host
    now ← now_ms host
    insert_node (file_row node_id ws parent_id file_name length generation now)
    finalize_generation generation length
    append_change ws
        (record {
          kind = ChangeKind.created;
          node_id = some node_id;
          old_path = none;
          new_path = some path.canonical;
          revision = some 1;
        })
        actor now
    pure (applied (file_row node_id ws parent_id file_name length generation now))

  unfoldable pub finalize_named : RawNode → Option Text → ℕ → ℕ → Sql FinalizeOutcome
  finalize_named p none generation length db = panicked
  finalize_named p (some file_name) generation length db =
      finalize_create p.id file_name generation length db

  unfoldable pub finalize_in : Option RawNode → FinalizeParams → ℕ → ℕ → Sql FinalizeOutcome
  finalize_in none params generation length db = pure FinalizeOutcome.missing db
  finalize_in (some p) params generation length db =
      if not (p.kind == directory_kind)
      then pure FinalizeOutcome.wrong_kind db
      else if not params.allow_create
      then pure FinalizeOutcome.missing db
      else finalize_named p (name path) generation length db

  unfoldable pub finalize_absent : Option VirtualPath → FinalizeParams → ℕ → ℕ → Sql FinalizeOutcome
  finalize_absent none params generation length db = pure FinalizeOutcome.missing db
  finalize_absent (some parent_path) params generation length db =
      finalize_in (resolve db ws parent_path) params generation length db

  unfoldable pub finalize_update : RawNode → ℕ → ℕ → Sql FinalizeOutcome
  finalize_update existing generation length = do
    now ← now_ms host
    update_node existing.id (λ r. record r {
      node = record r.node {
        content_generation_id = some generation;
        size = length;
        revision = existing.revision + 1;
        modified_at_ms = now;
        accessed_at_ms = now;
      };
    })
    finalize_generation generation length
    append_change ws
        (record {
          kind = ChangeKind.modified;
          node_id = some existing.id;
          old_path = none;
          new_path = some path.canonical;
          revision = some (existing.revision + 1);
        })
        actor now
    delete_old existing.content_generation_id generation
    pure (
        applied (record existing {
          workspace_id = ws;
          kind = file_kind;
          size = length;
          revision = existing.revision + 1;
          modified_at_ms = now;
          accessed_at_ms = now;
          content_generation_id = some generation;
          symlink_target = none;
        }))

  unfoldable pub finalize_existing : Option RawNode → FinalizeParams → ℕ → ℕ → Sql FinalizeOutcome
  finalize_existing none params generation length db =
      finalize_absent (parent path) params generation length db
  finalize_existing (some existing) params generation length db =
      if not (existing.kind == file_kind)
      then pure FinalizeOutcome.wrong_kind db
      else if conflicts params.expected_revision existing
      then pure FinalizeOutcome.conflict db
      else finalize_update existing generation length db

  unfoldable pub finalize_tx : FinalizeParams → ℕ → ℕ → Sql FinalizeOutcome
  unfolding finalize_create finalize_named finalize_in finalize_absent finalize_update
      finalize_existing delete_old
  finalize_tx params generation length db =
      finalize_existing (resolve db ws path) params generation length db

  unfoldable pub touched_of : FinalizeOutcome → TouchOutcome
  touched_of (applied row) = TouchOutcome.created row
  touched_of FinalizeOutcome.missing = TouchOutcome.missing
  touched_of FinalizeOutcome.wrong_kind = TouchOutcome.wrong_kind
  touched_of FinalizeOutcome.conflict = TouchOutcome.conflict

  unfoldable pub touch_create : Sql TouchOutcome
  touch_create = do
    generation ← create_generation host ws
    finalize_generation generation 0
    outcome ← finalize_tx (record { allow_create = true; expected_revision = none }) generation 0
    pure (touched_of outcome)

  unfoldable pub touch_update : RawNode → Sql TouchOutcome
  touch_update node = do
    now ← now_ms host
    update_node node.id (λ r. record r {
      node = record r.node {
        revision = node.revision + 1;
        modified_at_ms = now;
        accessed_at_ms = now;
      };
    })
    λ db. elim (fetch_by_id db ws node.id) [
      | none ↦ panicked
      | some row ↦ done (TouchOutcome.touched row) db
    ]

  unfoldable pub touch_found : Option RawNode → TouchOptions → Sql TouchOutcome
  unfolding touch_create touch_update touched_of
  touch_found (some node) options db =
      if not (node.kind == file_kind)
      then pure TouchOutcome.wrong_kind db
      else if conflicts options.expected_revision node
      then pure TouchOutcome.conflict db
      else touch_update node db
  touch_found none options db =
      if not options.create then pure TouchOutcome.missing db else touch_create db

  unfoldable pub touch_tx : TouchOptions → Sql TouchOutcome
  unfolding touch_found
  touch_tx options db = touch_found (resolve db ws path) options db

  unfoldable pub touch : TouchOptions → Db → Returned Node
  touch options db = finish (λ o. touch_result o path) (transact (touch_tx options) db)
