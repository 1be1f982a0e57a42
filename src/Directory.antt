-- ===== src/Directory.antt =====
-- `stat`, `exists` and `mkdir` of crates/fslite-sqlite/src/directory.rs.
use fslite.Common.{ℕ, Bool, true, false, not, none, some, List, [], ◌∷◌, Text, ◌==◌, if◌then◌else◌}
use fslite.Path
use fslite.Path.{VirtualPath, name, segments, join, root}
use fslite.Fault.{
  ErrorCode, not_found_code, FsResult, ok, err, already_exists, wrong_node_type, not_found,
  broken_link, link_loop, revision_conflict, of_path,
}
use fslite.Schema.{RawNode, Db, directory_kind, ChangeKind}
use fslite.Node.{Node, into_node}
use fslite.Sql.{
  Sql, Ran, done, failed, panicked, ◌>>=◌, ◌>>◌, pure, Host, new_id, now_ms, insert_node, is_none,
  Returned, returned, transact, finish,
}
use fslite.Change.{append_change}
use fslite.Resolve.{fetch_root, fetch_child, resolve_following, ResolveOutcome}
use fslite.Mutate.{conflicts}
use fslite.Mutate.Symlink.{CreateOptions}

stat_outcome : ResolveOutcome → VirtualPath → FsResult Node
stat_outcome (ResolveOutcome.found row) path = into_node row
stat_outcome ResolveOutcome.not_found path = err (not_found (of_path path))
stat_outcome ResolveOutcome.broken_link path = err (broken_link (of_path path))
stat_outcome ResolveOutcome.link_loop path = err (link_loop (of_path path))

unfoldable pub stat : Db → ℕ → VirtualPath → Bool → FsResult Node
unfolding stat_outcome
stat db ws path follow_symlinks = stat_outcome (resolve_following db ws path follow_symlinks) path

is_not_found : ErrorCode → Bool
is_not_found not_found_code = true
is_not_found _ = false

exists_of : FsResult Node → FsResult Bool
exists_of (ok _) = ok true
exists_of (err e) = if is_not_found e.code then ok false else err e

unfoldable pub exists : Db → ℕ → VirtualPath → Bool → FsResult Bool
unfolding exists_of is_not_found
exists db ws path follow_symlinks = exists_of (stat db ws path follow_symlinks)

pub data MkdirOutcome : Type 0 where
  created existing : RawNode → MkdirOutcome
  exists_already wrong_kind parent_not_found conflict : MkdirOutcome

unfoldable pub mkdir_result : MkdirOutcome → VirtualPath → FsResult Node
mkdir_result (created row) path = into_node row
mkdir_result (existing row) path = into_node row
mkdir_result exists_already path = err (already_exists (of_path path))
mkdir_result wrong_kind path = err (wrong_node_type (of_path path))
mkdir_result parent_not_found path = err (not_found (of_path path))
mkdir_result conflict path = err (revision_conflict (of_path path))

abbrev pub directory_row : ℕ → ℕ → ℕ → Text → ℕ → RawNode
directory_row node_id ws parent_id dir_name now = record {
  id = node_id;
  workspace_id = ws;
  parent_id = some parent_id;
  name = dir_name;
  kind = directory_kind;
  size = 0;
  revision = 1;
  created_at_ms = now;
  modified_at_ms = now;
  accessed_at_ms = now;
  content_generation_id = none;
  symlink_target = none;
}

-- `current_path.join(segment).expect(…)`
unfoldable pub joined : Path.Parsed VirtualPath → Sql VirtualPath
joined (Path.ok p) = pure p
joined (Path.invalid_path_or_name _) = λ db. panicked

module _ (host : Host) (ws : ℕ) (options : CreateOptions) (actor : Text) where
  unfoldable pub create_directory : ℕ → Text → VirtualPath → Sql RawNode
  create_directory parent_id dir_name full_path = do
    node_id ← new_id host
    now ← now_ms host
    insert_node (directory_row node_id ws parent_id dir_name now)
    append_change ws
        (record {
          kind = ChangeKind.created;
          node_id = some node_id;
          old_path = none;
          new_path = some full_path.canonical;
          revision = some 1;
        })
        actor now
    pure (directory_row node_id ws parent_id dir_name now)

  unfoldable pub mkdir_existing : RawNode → MkdirOutcome
  mkdir_existing node =
      if not (node.kind == directory_kind)
      then wrong_kind
      else if not options.exist_ok
      then exists_already
      else if conflicts options.expected_revision node
      then conflict
      else existing node

  unfoldable pub mkdir_create : RawNode → VirtualPath → Text → Sql MkdirOutcome
  unfolding joined
  mkdir_create current current_path leaf = do
    leaf_path ← joined (join current_path leaf)
    row ← create_directory current.id leaf leaf_path
    pure (created row)

  -- from the check of `current.kind` behind the loop on
  unfoldable pub mkdir_leaf : RawNode → VirtualPath → Text → Sql MkdirOutcome
  unfolding mkdir_existing mkdir_create
  mkdir_leaf current current_path leaf db =
      if not (current.kind == directory_kind)
      then pure wrong_kind db
      else (elim (fetch_child db ws current.id leaf) [
        | some node ↦ pure (mkdir_existing node) db
        | none ↦ mkdir_create current current_path leaf db
      ])

  -- a missing ancestor, with `options.parents`
  unfoldable pub mkdir_ancestor : RawNode → VirtualPath → Text → Sql RawNode
  unfolding joined
  mkdir_ancestor current current_path segment = do
    full_path ← joined (join current_path segment)
    create_directory current.id segment full_path

  -- The loop over the ancestors: the first segment and the others, of which the last is the leaf.
  unfoldable pub mkdir_walk : RawNode → VirtualPath → Text → List Text → Sql MkdirOutcome
  mkdir_walk current current_path leaf [] db = mkdir_leaf current current_path leaf db
  mkdir_walk current current_path segment (next ∷ rest) db = elim (current.kind == directory_kind) [
    | false ↦ pure wrong_kind db
    | true ↦ elim (fetch_child db ws current.id segment) [
      | some child ↦ elim (join current_path segment) [
        | Path.ok p ↦ mkdir_walk child p next rest db
        | Path.invalid_path_or_name _ ↦ panicked
      ]
      | none ↦ elim options.parents [
        | false ↦ pure parent_not_found db
        | true ↦ elim (mkdir_ancestor current current_path segment db) [
          | done child db' ↦ elim (join current_path segment) [
            | Path.ok p ↦ mkdir_walk child p next rest db'
            | Path.invalid_path_or_name _ ↦ panicked
          ]
          | failed e t ↦ failed e t
          | Ran.diverged ↦ Ran.diverged
          | panicked ↦ panicked
        ]
      ]
    ]
  ]

  -- With no segment at all, `segments.len() - 1` overflows; the callers rule that out.
  unfoldable pub mkdir_from : RawNode → List Text → Sql MkdirOutcome
  mkdir_from current [] db = panicked
  mkdir_from current (segment ∷ rest) db = mkdir_walk current root segment rest db

  unfoldable pub mkdir_tx : List Text → Sql MkdirOutcome
  unfolding mkdir_from
  mkdir_tx segs db = elim (fetch_root db ws) [
    | none ↦ pure parent_not_found db
    | some r ↦ mkdir_from r segs db
  ]

  unfoldable pub mkdir : VirtualPath → Db → Returned Node
  mkdir path db =
      if is_none (name path)
      then returned (err (already_exists (of_path path))) db
      else finish (λ o. mkdir_result o path) (transact (mkdir_tx (segments path)) db)
