-- ===== src/Mutate/Remove.antt =====
-- `remove_tx`, `remove_result` and `remove` of crates/fslite-sqlite/src/mutate.rs.
use fslite.Common.{ℕ, Bool, false, not, ◌&&◌, Option, none, some, Text, ◌==◌, if◌then◌else◌}
use fslite.Path.{VirtualPath, name}
use fslite.Fault.{
  FsResult, ok, err, permission_denied, not_found, link_loop, directory_not_empty,
  revision_conflict, of_path,
}
use fslite.Schema.{RawNode, Db, directory_kind, ChangeKind}
use fslite.Sql.{Sql, ◌>>=◌, ◌>>◌, pure, Host, now_ms, is_none, Returned, transact, finish}
use fslite.Change.{append_change}
use fslite.Purge.{purge_subtree}
use fslite.Resolve.{resolve_following, has_active_children, ResolveOutcome}
use package.fslite.Mutate.{conflicts}

pub record RemoveOptions : Type 0 where
  pub recursive : Bool
  pub expected_revision : Option ℕ

pub data RemoveOutcome : Type 0 where
  removed is_root missing loop not_empty conflict : RemoveOutcome

unfoldable pub remove_result : RemoveOutcome → VirtualPath → FsResult (Unit {0})
remove_result removed path = ok tt
remove_result is_root path = err (permission_denied (of_path path))
remove_result missing path = err (not_found (of_path path))
remove_result loop path = err (link_loop (of_path path))
remove_result not_empty path = err (directory_not_empty (of_path path))
remove_result conflict path = err (revision_conflict (of_path path))

module _ (host : Host) (ws : ℕ) (path : VirtualPath) (options : RemoveOptions) (actor : Text) where
  unfoldable pub remove_apply : RawNode → Sql RemoveOutcome
  remove_apply node = do
    purge_subtree host node.id
    now ← now_ms host
    append_change ws
        (record {
          kind = ChangeKind.removed;
          node_id = some node.id;
          old_path = some path.canonical;
          new_path = none;
          revision = none;
        })
        actor now
    pure removed

  unfoldable pub remove_node : ResolveOutcome → Sql RemoveOutcome
  unfolding remove_apply
  remove_node ResolveOutcome.not_found db = pure missing db
  remove_node ResolveOutcome.broken_link db = pure missing db
  remove_node ResolveOutcome.link_loop db = pure loop db
  remove_node (ResolveOutcome.found node) db =
      if conflicts options.expected_revision node
      then pure conflict db
      else if node.kind == directory_kind
          && not options.recursive
          && has_active_children db ws node.id
      then pure not_empty db
      else remove_apply node db

  unfoldable pub remove_tx : Sql RemoveOutcome
  unfolding remove_node
  remove_tx db =
      if is_none (name path)
      then pure is_root db
      else remove_node (resolve_following db ws path false) db

  unfoldable pub remove : Db → Returned (Unit {0})
  remove db = finish (λ o. remove_result o path) (transact remove_tx db)
