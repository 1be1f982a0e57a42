-- ===== src/Mutate/Move.antt =====
-- `move_tx`, `move_result` and `move_path` of crates/fslite-sqlite/src/mutate.rs.
use fslite.Common.{ℕ, ◌+◌, Bool, false, Option, none, some, Text, if◌then◌else◌}
use fslite.Path.{VirtualPath, name, is_same_or_descendant}
use fslite.Fault.{
  FsResult, err, permission_denied, not_found, link_loop, revision_conflict, already_exists,
  wrong_node_type, of_path,
}
use fslite.Schema.{RawNode, Db, moved}
use fslite.Node.{Node, into_node}
use fslite.Sql.{
  Sql, panicked, ◌>>=◌, ◌>>◌, pure, Host, now_ms, relocate_node, is_none, Returned, transact,
  finish,
}
use fslite.Change.{append_change}
use fslite.Purge.{purge_subtree}
use fslite.Resolve.{resolve_following, ResolveOutcome}
use package.fslite.Mutate.{
  conflicts, Destination, ready, is_root, parent_not_found, parent_not_directory, no_parent,
  resolve_destination,
}

pub record MoveOptions : Type 0 where
  pub overwrite : Bool
  pub expected_revision : Option ℕ

pub data MoveOutcome : Type 0 where
  moved_to : RawNode → MoveOutcome
  source_is_root source_not_found source_link_loop dest_inside_source conflict : MoveOutcome
  dest_is_root dest_parent_not_found dest_parent_not_directory dest_already_exists : MoveOutcome

unfoldable pub move_result : MoveOutcome → VirtualPath → VirtualPath → FsResult Node
move_result (moved_to row) from to = into_node row
move_result source_is_root from to = err (permission_denied (of_path from))
move_result dest_inside_source from to = err (permission_denied (of_path from))
move_result source_not_found from to = err (not_found (of_path from))
move_result source_link_loop from to = err (link_loop (of_path from))
move_result conflict from to = err (revision_conflict (of_path from))
move_result dest_is_root from to = err (already_exists (of_path to))
move_result dest_already_exists from to = err (already_exists (of_path to))
move_result dest_parent_not_found from to = err (not_found (of_path to))
move_result dest_parent_not_directory from to = err (wrong_node_type (of_path to))

-- the row as `Moved` returns it
abbrev pub moved_row : ℕ → RawNode → ℕ → Text → ℕ → RawNode
moved_row ws source parent_id dest_name now = record source {
  workspace_id = ws;
  parent_id = some parent_id;
  name = dest_name;
  revision = source.revision + 1;
  modified_at_ms = now;
}

module _ (host : Host) (ws : ℕ) (from to : VirtualPath) (options : MoveOptions) (actor : Text) where
  -- from `now_ms()` on
  unfoldable pub move_apply : RawNode → ℕ → Text → Sql MoveOutcome
  move_apply source parent_id dest_name = do
    now ← now_ms host
    relocate_node source.id (λ r. record r {
      node = record r.node {
        parent_id = some parent_id;
        name = dest_name;
        revision = source.revision + 1;
        modified_at_ms = now;
      };
    })
    append_change ws
        (record {
          kind = moved;
          node_id = some source.id;
          old_path = some from.canonical;
          new_path = some to.canonical;
          revision = some (source.revision + 1);
        })
        actor now
    pure (moved_to (moved_row ws source parent_id dest_name now))

  unfoldable pub move_onto : RawNode → ℕ → Option RawNode → Text → Sql MoveOutcome
  unfolding move_apply
  move_onto source parent_id none dest_name = move_apply source parent_id dest_name
  move_onto source parent_id (some existing) dest_name =
      if options.overwrite
      then purge_subtree host existing.id >> move_apply source parent_id dest_name
      else pure dest_already_exists

  unfoldable pub move_into : RawNode → Destination → Sql MoveOutcome
  unfolding move_onto
  move_into source is_root = pure dest_is_root
  move_into source parent_not_found = pure dest_parent_not_found
  move_into source no_parent = λ db. panicked
  move_into source parent_not_directory = pure dest_parent_not_directory
  move_into source (ready parent_id existing dest_name) =
      move_onto source parent_id existing dest_name

  unfoldable pub move_source : ResolveOutcome → Sql MoveOutcome
  unfolding move_into
  move_source ResolveOutcome.not_found db = pure source_not_found db
  move_source ResolveOutcome.broken_link db = pure source_not_found db
  move_source ResolveOutcome.link_loop db = pure source_link_loop db
  move_source (ResolveOutcome.found source) db =
      if conflicts options.expected_revision source
      then pure conflict db
      else if is_same_or_descendant from to
      then pure dest_inside_source db
      else move_into source (resolve_destination db ws to) db

  unfoldable pub move_tx : Sql MoveOutcome
  unfolding move_source
  move_tx db =
      if is_none (name from)
      then pure source_is_root db
      else move_source (resolve_following db ws from false) db

  unfoldable pub move_path : Db → Returned Node
  move_path db = finish (λ o. move_result o from to) (transact move_tx db)
