-- ===== src/Mutate/Copy.antt =====
-- `copy_tx`, `copy_subtree`, `copy_result` and `copy` of crates/fslite-sqlite/src/mutate.rs.
use fslite.Common.{
  ℕ, zero, suc, Bool, false, not, ◌&&◌, ◌||◌, Option, none, some, List, [], ◌∷◌, ◌++◌, Text, ◌==◌,
  if◌then◌else◌,
}
use fslite.Path.{VirtualPath}
use fslite.Fault.{
  FsResult, err, not_found, link_loop, revision_conflict, already_exists, wrong_node_type, of_path,
}
use fslite.Schema.{RawNode, AttributeRow, Db, directory_kind, file_kind, symlink_kind, ChangeKind}
use fslite.Node.{Node, into_node}
use fslite.Sql.{
  query_returned_no_rows, invalid_column_type, done, failed, diverged, panicked, Sql, ◌>>=◌, ◌>>◌,
  pure, Host, new_id, now_ms, insert_node, Returned, transact, finish,
}
use fslite.Change.{append_change}
use fslite.Purge.{purge_subtree}
use fslite.Resolve.{resolve_following, fetch_by_id, fetch_children, ResolveOutcome}
use fslite.Content.{create_generation, finalize_generation, copy_chunks}
use package.fslite.Mutate.{
  conflicts, Destination, ready, is_root, parent_not_found, parent_not_directory, no_parent,
  resolve_destination,
}

pub record CopyOptions : Type 0 where
  pub recursive : Bool
  pub overwrite : Bool
  pub expected_revision : Option ℕ

pub data CopyOutcome : Type 0 where
  created : RawNode → CopyOutcome
  source_not_found source_link_loop source_not_recursive conflict : CopyOutcome
  dest_is_root dest_parent_not_found dest_parent_not_directory dest_already_exists : CopyOutcome

unfoldable pub copy_result : CopyOutcome → VirtualPath → VirtualPath → FsResult Node
copy_result (created row) from to = into_node row
copy_result source_not_found from to = err (not_found (of_path from))
copy_result source_link_loop from to = err (link_loop (of_path from))
copy_result source_not_recursive from to = err (wrong_node_type (of_path from))
copy_result conflict from to = err (revision_conflict (of_path from))
copy_result dest_is_root from to = err (already_exists (of_path to))
copy_result dest_already_exists from to = err (already_exists (of_path to))
copy_result dest_parent_not_found from to = err (not_found (of_path to))
copy_result dest_parent_not_directory from to = err (wrong_node_type (of_path to))

copied_attributes : ℕ → ℕ → List AttributeRow → List AttributeRow
copied_attributes new old [] = []
copied_attributes new old (a ∷ rows) =
    let rest = copied_attributes new old rows in
    if a.node_id == old then record a { node_id = new } ∷ rest else rest

-- INSERT INTO attributes … SELECT …, for a node that was just inserted and has none
unfoldable pub copy_attributes : ℕ → ℕ → Sql (Unit {0})
unfolding copied_attributes
copy_attributes new old db =
    done tt (record db { attributes = db.attributes ++ copied_attributes new old db.attributes })

unfoldable pub fetch_full : ℕ → ℕ → Sql RawNode
fetch_full ws id db = elim (fetch_by_id db ws id) [
  | some node ↦ done node db
  | none ↦ failed query_returned_no_rows db.ticks
]

abbrev pub copied_row : RawNode → ℕ → ℕ → ℕ → Text → Option ℕ → ℕ → RawNode
copied_row old new ws parent_id new_name generation now = record {
  id = new;
  workspace_id = ws;
  parent_id = some parent_id;
  name = new_name;
  kind = old.kind;
  size = old.size;
  revision = 1;
  created_at_ms = now;
  modified_at_ms = now;
  accessed_at_ms = now;
  content_generation_id = generation;
  symlink_target = old.symlink_target;
}

-- A copy that waits: the node, and the parent and name of its copy.
pub record Pending : Type 0 where
  pub old : RawNode
  pub parent_id : ℕ
  pub new_name : Text

unfoldable pub children_pending : ℕ → List RawNode → List Pending → List Pending
children_pending new [] stack = stack
children_pending new (child ∷ rest) stack =
    children_pending new rest
      (record { old = child; parent_id = new; new_name = child.name } ∷ stack)

unfoldable pub first_of_two : Option RawNode → RawNode → Option RawNode
first_of_two none node = some node
first_of_two (some top) node = some top

unfoldable pub copied_top : Option RawNode → Sql RawNode
copied_top none db = panicked
copied_top (some top) db = done top db

module _ (host : Host) (ws now : ℕ) where
  unfoldable pub copy_generation : ℕ → ℕ → Sql (Option ℕ)
  copy_generation old_generation size = do
    new_generation ← create_generation host ws
    copy_chunks new_generation old_generation
    finalize_generation new_generation size
    pure (some new_generation)

  unfoldable pub copy_content_of : Option ℕ → ℕ → Sql (Option ℕ)
  copy_content_of none size = pure none
  copy_content_of (some old_generation) size = copy_generation old_generation size

  unfoldable pub copy_content : RawNode → Sql (Option ℕ)
  copy_content old db =
      if old.kind == directory_kind || old.kind == symlink_kind
      then pure none db
      else if old.kind == file_kind
      then copy_content_of old.content_generation_id old.size db
      else failed invalid_column_type db.ticks

  -- one round of the loop, up to the push of the children
  unfoldable pub copy_one : Pending → Sql RawNode
  unfolding copy_content copy_content_of copy_generation
  copy_one p = do
    new ← new_id host
    generation ← copy_content p.old
    insert_node (copied_row p.old new ws p.parent_id p.new_name generation now)
    copy_attributes new p.old.id
    pure (copied_row p.old new ws p.parent_id p.new_name generation now)

  -- The stack, with its top first, once the children of a copied directory are pushed.
  unfoldable pub push_children : Db → Pending → RawNode → List Pending → List Pending
  unfolding children_pending
  push_children db p new_node stack =
      if p.old.kind == directory_kind
      then children_pending new_node.id (fetch_children db ws p.old.id) stack
      else stack

  -- The loop. It ends by an empty stack only; `rounds` bounds it.
  unfoldable pub copy_loop : ℕ → List Pending → Option RawNode → Sql RawNode
  unfolding copied_top first_of_two
  copy_loop rounds [] top db = copied_top top db
  copy_loop zero (p ∷ stack) top db = diverged
  copy_loop (suc rounds) (p ∷ stack) top db = elim (copy_one p db) [
    | done new_node db' ↦
        copy_loop rounds (push_children db' p new_node stack) (first_of_two top new_node) db'
    | failed e t ↦ failed e t
    | diverged ↦ diverged
    | panicked ↦ panicked
  ]

  unfoldable pub copy_subtree : RawNode → ℕ → Text → Sql RawNode
  unfolding fetch_full
  copy_subtree source dest_parent_id dest_name = do
    full ← fetch_full ws source.id
    copy_loop host.rounds
        (record { old = full; parent_id = dest_parent_id; new_name = dest_name } ∷ []) none

module _ (host : Host) (ws : ℕ) (from to : VirtualPath) (options : CopyOptions) (actor : Text) where
  unfoldable pub copy_apply : RawNode → ℕ → Text → Sql CopyOutcome
  copy_apply source parent_id dest_name = do
    now ← now_ms host
    new_node ← copy_subtree host ws now source parent_id dest_name
    append_change ws
        (record {
          kind = ChangeKind.copied;
          node_id = some new_node.id;
          old_path = some from.canonical;
          new_path = some to.canonical;
          revision = some 1;
        })
        actor now
    pure (created new_node)

  unfoldable pub copy_onto : RawNode → ℕ → Option RawNode → Text → Sql CopyOutcome
  copy_onto source parent_id none dest_name db = copy_apply source parent_id dest_name db
  copy_onto source parent_id (some existing) dest_name db =
      if not options.overwrite
      then pure dest_already_exists db
      else (purge_subtree host existing.id >> copy_apply source parent_id dest_name) db

  unfoldable pub copy_into : RawNode → Destination → Sql CopyOutcome
  copy_into source is_root db = pure dest_is_root db
  copy_into source parent_not_found db = pure dest_parent_not_found db
  copy_into source no_parent db = panicked
  copy_into source parent_not_directory db = pure dest_parent_not_directory db
  copy_into source (ready parent_id existing dest_name) db =
      copy_onto source parent_id existing dest_name db

  unfoldable pub copy_source : ResolveOutcome → Sql CopyOutcome
  unfolding copy_into copy_onto
  copy_source ResolveOutcome.not_found db = pure source_not_found db
  copy_source ResolveOutcome.broken_link db = pure source_not_found db
  copy_source ResolveOutcome.link_loop db = pure source_link_loop db
  copy_source (ResolveOutcome.found source) db =
      if conflicts options.expected_revision source
      then pure conflict db
      else if source.kind == directory_kind && not options.recursive
      then pure source_not_recursive db
      else copy_into source (resolve_destination db ws to) db

  unfoldable pub copy_tx : Sql CopyOutcome
  unfolding copy_source
  copy_tx db = copy_source (resolve_following db ws from false) db

  unfoldable pub copy : Db → Returned Node
  copy db = finish (λ o. copy_result o from to) (transact copy_tx db)
