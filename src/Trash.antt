-- ===== src/Trash.antt =====
-- Trashing, restoring and purging, of crates/fslite-sqlite/src/trash.rs.
use fslite.Common.{
  ℕ, ◌+◌, Bool, true, false, not, ◌&&◌, Option, none, some, [], ◌∷◌, ◌++◌, Text, ◌==◌,
  if◌then◌else◌,
}
use fslite.Path.{VirtualPath, name, parent}
use fslite.Fault.{
  FsResult, ok, err, permission_denied, not_found, link_loop, already_exists, wrong_node_type,
  revision_conflict, of_path, of_trash,
}
use fslite.Schema.{RawNode, NodeRow, TrashRow, Db, directory_kind, ChangeKind}
use fslite.Node.{Node, into_node}
use fslite.Sql.{
  constraint_violation, Sql, done, failed, panicked, ◌>>=◌, ◌>>◌, pure, Host, new_id, now_ms,
  update_node, relocate_node, find_by, keep_by, any_by, is_none, Returned, transact, finish,
}
use fslite.Change.{append_change}
use fslite.Purge.{purge_subtree}
use fslite.Resolve.{resolve_following, fetch_by_id, fetch_by_id_any, fetch_child, ResolveOutcome}
use fslite.Mutate.{conflicts}

-- `TrashEntry`; its `actor_metadata` is the text that was stored.
pub record TrashEntry : Type 0 where
  pub id : ℕ
  pub node : Node
  pub original_path : VirtualPath
  pub trashed_at_ms : ℕ
  pub actor_metadata : Text

pub data TrashOutcome : Type 0 where
  trashed : ℕ → RawNode → ℕ → TrashOutcome
  is_root missing loop conflict : TrashOutcome

unfoldable pub entry_of : FsResult Node → ℕ → VirtualPath → ℕ → Text → FsResult TrashEntry
entry_of (err e) trash_id path deleted_at_ms actor = err e
entry_of (ok node) trash_id path deleted_at_ms actor = ok (record {
  id = trash_id;
  node = node;
  original_path = path;
  trashed_at_ms = deleted_at_ms;
  actor_metadata = actor;
})

unfoldable pub trash_result : TrashOutcome → VirtualPath → Text → FsResult TrashEntry
unfolding entry_of
trash_result (trashed trash_id node deleted_at_ms) path actor =
    entry_of (into_node node) trash_id path deleted_at_ms actor
trash_result is_root path actor = err (permission_denied (of_path path))
trash_result missing path actor = err (not_found (of_path path))
trash_result loop path actor = err (link_loop (of_path path))
trash_result conflict path actor = err (revision_conflict (of_path path))

-- the primary key of `trash`, and its references to `nodes` and `workspaces`
abbrev pub trash_ok : Db → TrashRow → Bool
trash_ok db t =
    not (any_by (λ u. u.id == t.id) db.trash)
    && any_by (λ r. r.node.id == t.node_id) db.nodes
    && any_by (λ w. w.id == t.workspace_id) db.workspaces

-- INSERT INTO trash
unfoldable pub insert_trash : TrashRow → Sql (Unit {0})
insert_trash t db =
    if trash_ok db t
    then done tt (record db { trash = db.trash ++ t ∷ [] })
    else failed constraint_violation db.ticks

abbrev pub mark_trashed : ℕ → NodeRow → NodeRow
mark_trashed now r = record r { trashed_at_ms = some now }

module _ (host : Host) (ws : ℕ) (actor : Text) where
  unfoldable pub trash_apply : VirtualPath → RawNode → Option ℕ → Sql TrashOutcome
  trash_apply path node none = λ db. panicked
  trash_apply path node (some original_parent_id) = do
    trash_id ← new_id host
    now ← now_ms host
    insert_trash (record {
      id = trash_id;
      workspace_id = ws;
      node_id = node.id;
      original_parent_id = original_parent_id;
      original_name = node.name;
      deleted_at_ms = now;
    })
    update_node node.id (mark_trashed now)
    append_change ws
        (record {
          kind = ChangeKind.trashed;
          node_id = some node.id;
          old_path = some path.canonical;
          new_path = none;
          revision = some node.revision;
        })
        actor now
    pure (trashed trash_id node now)

  unfoldable pub trash_node : VirtualPath → Option ℕ → ResolveOutcome → Sql TrashOutcome
  unfolding trash_apply
  trash_node path expected ResolveOutcome.not_found db = pure missing db
  trash_node path expected ResolveOutcome.broken_link db = pure missing db
  trash_node path expected ResolveOutcome.link_loop db = pure loop db
  trash_node path expected (ResolveOutcome.found node) db =
      if conflicts expected node then pure conflict db else trash_apply path node node.parent_id db

  unfoldable pub trash_tx : VirtualPath → Option ℕ → Sql TrashOutcome
  unfolding trash_node
  trash_tx path expected db =
      if is_none (name path)
      then pure is_root db
      else trash_node path expected (resolve_following db ws path false) db

  unfoldable pub trash : VirtualPath → Option ℕ → Db → Returned TrashEntry
  trash path expected db =
      finish (λ o. trash_result o path actor) (transact (trash_tx path expected) db)

unfoldable pub fetch_trash_row : Db → ℕ → ℕ → Option TrashRow
fetch_trash_row db ws trash_id = find_by (λ t. t.workspace_id == ws && t.id == trash_id) db.trash

pub data RestoreOutcome : Type 0 where
  restored : RawNode → RestoreOutcome
  trash_not_found conflict dest_is_root dest_parent_not_found : RestoreOutcome
  dest_parent_not_directory dest_already_exists original_location_gone : RestoreOutcome

unfoldable pub restore_result : RestoreOutcome → ℕ → FsResult Node
restore_result (restored row) trash_id = into_node row
restore_result trash_not_found trash_id = err (not_found (of_trash trash_id))
restore_result original_location_gone trash_id = err (not_found (of_trash trash_id))
restore_result dest_parent_not_found trash_id = err (not_found (of_trash trash_id))
restore_result conflict trash_id = err (revision_conflict (of_trash trash_id))
restore_result dest_is_root trash_id = err (already_exists (of_trash trash_id))
restore_result dest_already_exists trash_id = err (already_exists (of_trash trash_id))
restore_result dest_parent_not_directory trash_id = err (wrong_node_type (of_trash trash_id))

-- Where the node goes, or the outcome that says why nowhere; `no_parent` is the `expect`.
pub data Place : Type 0 where
  place : ℕ → Text → Place
  nowhere : RestoreOutcome → Place
  no_parent : Place

unfoldable pub place_in : ResolveOutcome → Text → Place
place_in (ResolveOutcome.found p) n =
    if p.kind == directory_kind then place p.id n else nowhere dest_parent_not_directory
place_in ResolveOutcome.not_found n = nowhere dest_parent_not_found
place_in ResolveOutcome.broken_link n = nowhere dest_parent_not_found
place_in ResolveOutcome.link_loop n = nowhere dest_parent_not_found

unfoldable pub place_below : Db → ℕ → Option Text → Option VirtualPath → Place
place_below db ws none _ = nowhere dest_is_root
place_below db ws (some n) none = no_parent
place_below db ws (some n) (some parent_path) =
    place_in (resolve_following db ws parent_path true) n

unfoldable pub restore_place : Db → ℕ → Option VirtualPath → TrashRow → Place
unfolding place_below place_in
restore_place db ws (some dest_path) row = place_below db ws (name dest_path) (parent dest_path)
restore_place db ws none row = elim (fetch_by_id db ws row.original_parent_id) [
  | none ↦ nowhere original_location_gone
  | some p ↦
      if p.kind == directory_kind
      then place row.original_parent_id row.original_name
      else nowhere dest_parent_not_directory
]

-- DELETE FROM trash WHERE id = ?
unfoldable pub delete_trash : ℕ → Sql (Unit {0})
delete_trash trash_id db =
    done tt (record db { trash = keep_by (λ t. not (t.id == trash_id)) db.trash })

abbrev pub mark_restored : ℕ → Text → ℕ → ℕ → NodeRow → NodeRow
mark_restored parent_id dest_name revision now r = record r {
  node = record r.node {
    parent_id = some parent_id;
    name = dest_name;
    revision = revision;
    modified_at_ms = now;
  };
  trashed_at_ms = none;
}

pub data PurgeOutcome : Type 0 where
  purged no_such_trash : PurgeOutcome

unfoldable pub purge_result : PurgeOutcome → ℕ → FsResult (Unit {0})
purge_result purged trash_id = ok tt
purge_result no_such_trash trash_id = err (not_found (of_trash trash_id))

module _ (host : Host) (ws : ℕ) (trash_id : ℕ) (actor : Text) where
  unfoldable pub restore_apply : RawNode → ℕ → Text → Sql RestoreOutcome
  restore_apply node parent_id dest_name = do
    now ← now_ms host
    relocate_node node.id (mark_restored parent_id dest_name (node.revision + 1) now)
    delete_trash trash_id
    append_change ws
        (record {
          kind = ChangeKind.restored;
          node_id = some node.id;
          old_path = none;
          new_path = none;
          revision = some (node.revision + 1);
        })
        actor now
    λ db. elim (fetch_by_id db ws node.id) [ none ↦ panicked | some row ↦ done (restored row) db ]

  unfoldable pub restore_at : RawNode → Place → Sql RestoreOutcome
  restore_at node (nowhere outcome) db = pure outcome db
  restore_at node no_parent db = panicked
  restore_at node (place parent_id dest_name) db =
      if not (is_none (fetch_child db ws parent_id dest_name))
      then pure dest_already_exists db
      else restore_apply node parent_id dest_name db

  unfoldable pub restore_node :
      Option VirtualPath → Option ℕ → TrashRow → Option RawNode → Sql RestoreOutcome
  restore_node destination expected row none db = pure trash_not_found db
  restore_node destination expected row (some node) db =
      if conflicts expected node
      then pure conflict db
      else restore_at node (restore_place db ws destination row) db

  unfoldable pub restore_row : Option VirtualPath → Option ℕ → Option TrashRow → Sql RestoreOutcome
  unfolding restore_node restore_at restore_apply
  restore_row destination expected none db = pure trash_not_found db
  restore_row destination expected (some row) db =
      restore_node destination expected row (fetch_by_id_any db ws row.node_id) db

  unfoldable pub restore_tx : Option VirtualPath → Option ℕ → Sql RestoreOutcome
  unfolding restore_row
  restore_tx destination expected db =
      restore_row destination expected (fetch_trash_row db ws trash_id) db

  unfoldable pub restore : Option VirtualPath → Option ℕ → Db → Returned Node
  restore destination expected db =
      finish (λ o. restore_result o trash_id) (transact (restore_tx destination expected) db)

  unfoldable pub purge_row : Option TrashRow → Sql PurgeOutcome
  purge_row none = pure no_such_trash
  purge_row (some row) = do
    now ← now_ms host
    append_change ws
        (record {
          kind = ChangeKind.purged;
          node_id = some row.node_id;
          old_path = none;
          new_path = none;
          revision = none;
        })
        actor now
    purge_subtree host row.node_id
    pure purged

  unfoldable pub purge_tx : Sql PurgeOutcome
  unfolding purge_row
  purge_tx db = purge_row (fetch_trash_row db ws trash_id) db

  unfoldable pub purge : Db → Returned (Unit {0})
  purge db = finish (λ o. purge_result o trash_id) (transact purge_tx db)
