-- ===== src/Mutate/Symlink.antt =====
-- `symlink_tx`, `symlink_result`, `symlink` and `read_link` of crates/fslite-sqlite/src/mutate.rs.
use fslite.Common.{ℕ, Bool, true, false, not, Option, none, some, Text, ◌==◌, if◌then◌else◌}
use fslite.Path
use fslite.Path.{VirtualPath, LinkTarget, name, parent, parse_target}
use fslite.Fault.{
  FsResult, ok, err, already_exists, invalid_path_or_name, wrong_node_type, not_found, link_loop,
  revision_conflict, internal_storage_failure, of_path, of_storage, of_text,
}
use fslite.Schema.{RawNode, Db, directory_kind, symlink_kind, ChangeKind}
use fslite.Node.{Node, into_node}
use fslite.Sql.{
  Sql, ◌>>=◌, ◌>>◌, pure, panicked, Host, new_id, now_ms, insert_node, is_none, Returned, returned,
  transact, finish,
}
use fslite.Change.{append_change}
use fslite.Resolve.{resolve_following, fetch_child, ResolveOutcome}
use package.fslite.Mutate.{conflicts}

pub record CreateOptions : Type 0 where
  pub parents : Bool
  pub exist_ok : Bool
  pub expected_revision : Option ℕ

pub data SymlinkOutcome : Type 0 where
  created existing : RawNode → SymlinkOutcome
  exists_already wrong_kind parent_not_found conflict : SymlinkOutcome

unfoldable pub symlink_result : SymlinkOutcome → VirtualPath → FsResult Node
symlink_result (created row) link = into_node row
symlink_result (existing row) link = into_node row
symlink_result exists_already link = err (already_exists (of_path link))
symlink_result wrong_kind link = err (wrong_node_type (of_path link))
symlink_result parent_not_found link = err (not_found (of_path link))
symlink_result conflict link = err (revision_conflict (of_path link))

abbrev pub link_row : ℕ → ℕ → ℕ → Text → Text → ℕ → RawNode
link_row node_id ws parent_id link_name target now = record {
  id = node_id;
  workspace_id = ws;
  parent_id = some parent_id;
  name = link_name;
  kind = symlink_kind;
  size = 0;
  revision = 1;
  created_at_ms = now;
  modified_at_ms = now;
  accessed_at_ms = now;
  content_generation_id = none;
  symlink_target = some target;
}

module _ (host : Host) (ws : ℕ) (link : VirtualPath) (target : Text) (options : CreateOptions)
    (actor : Text) where
  unfoldable pub symlink_create : ℕ → Text → Sql SymlinkOutcome
  symlink_create parent_id link_name = do
    node_id ← new_id host
    now ← now_ms host
    insert_node (link_row node_id ws parent_id link_name target now)
    append_change ws
        (record {
          kind = ChangeKind.created;
          node_id = some node_id;
          old_path = none;
          new_path = some link.canonical;
          revision = some 1;
        })
        actor now
    pure (created (link_row node_id ws parent_id link_name target now))

  unfoldable pub symlink_existing : RawNode → SymlinkOutcome
  symlink_existing node =
      if not (node.kind == symlink_kind)
      then wrong_kind
      else if not options.exist_ok
      then exists_already
      else if conflicts options.expected_revision node
      then conflict
      else existing node

  unfoldable pub symlink_in : RawNode → Text → Sql SymlinkOutcome
  symlink_in p link_name db = elim (fetch_child db ws p.id link_name) [
    | some node ↦ pure (symlink_existing node) db
    | none ↦ symlink_create p.id link_name db
  ]

  unfoldable pub symlink_below : ResolveOutcome → Text → Sql SymlinkOutcome
  unfolding symlink_in symlink_create symlink_existing
  symlink_below (ResolveOutcome.found p) link_name db =
      if p.kind == directory_kind then symlink_in p link_name db else pure wrong_kind db
  symlink_below ResolveOutcome.not_found link_name db = pure parent_not_found db
  symlink_below ResolveOutcome.broken_link link_name db = pure parent_not_found db
  symlink_below ResolveOutcome.link_loop link_name db = pure parent_not_found db

  unfoldable pub symlink_at : Option Text → Option VirtualPath → Sql SymlinkOutcome
  unfolding symlink_below
  symlink_at none _ db = panicked
  symlink_at (some link_name) none db = panicked
  symlink_at (some link_name) (some parent_path) db =
      symlink_below (resolve_following db ws parent_path true) link_name db

  unfoldable pub symlink_tx : Sql SymlinkOutcome
  unfolding symlink_at
  symlink_tx = symlink_at (name link) (parent link)

  unfoldable pub symlink : Db → Returned Node
  symlink db =
      if is_none (name link)
      then returned (err (already_exists (of_path link))) db
      else finish (λ o. symlink_result o link) (transact symlink_tx db)

-- the text that a link was stored with
target_of : Option Text → FsResult LinkTarget
target_of none = err (internal_storage_failure of_storage)
target_of (some text) = elim (parse_target text) [
  | Path.ok target ↦ ok target
  | Path.invalid_path_or_name input ↦ err (invalid_path_or_name (of_text input))
]

read_outcome : ResolveOutcome → VirtualPath → FsResult LinkTarget
read_outcome (ResolveOutcome.found node) path =
    if node.kind == symlink_kind
    then target_of node.symlink_target
    else err (wrong_node_type (of_path path))
read_outcome ResolveOutcome.not_found path = err (not_found (of_path path))
read_outcome ResolveOutcome.broken_link path = err (not_found (of_path path))
read_outcome ResolveOutcome.link_loop path = err (link_loop (of_path path))

unfoldable pub read_link : Db → ℕ → VirtualPath → FsResult LinkTarget
unfolding target_of read_outcome
read_link db ws path = read_outcome (resolve_following db ws path false) path
