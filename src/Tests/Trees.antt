-- ===== src/Tests/Trees.antt =====
-- The theorems on the tables, at the sample.
use fslite.Common.{suc, ◌≡◌, refl, true, false, none, some, [], ◌∷◌, codes, ◌⊎◌, ◌==◌, ◌&&◌}
use fslite.Path.{
  segments, split, is_empty, name, parent, rfind_slash, is_same_or_descendant, parse_target,
  is_absolute, starts_with_slash, normalize, normalize_onto, push_segment, render, concat_segments,
}
use fslite.Schema.{RawNode, NodeRow, TrashRow, ChangeKind, Db, symlink_kind}
use fslite.Sql.{
  find_by, any_by, keep_by, now_ms, new_id, done, relocate_node, relocation_ok, references_ok,
  has_node, has_generation, occupied, update_node, set_where,
}
use fslite.Change.{Note, append_change, change_row, bump_seq, insert_change}
use fslite.Resolve.{
  resolve, resolve_following, found, fetch_root, fetch_active, fetch_child, fetch_by_id,
  fetch_by_id_any, has_active_children, descend, walk, follow_one, follow_text, follow_absolute,
  split_segments, drop_dots,
}
use fslite.Resolve.Agreement.{resolve-resolve_following, resolve_following-Chain, here, hop}
use fslite.Resolve.Stored.{IsStored, resolve_following-IsStored}
use fslite.Names.Lookup.{fetch_child_unique}
use fslite.Feed.{append_change-next, seq_of}
use fslite.Mutate.{resolve_destination}
use fslite.Mutate.Move.{
  MoveOptions, moved_to, moved_row, move_tx, move_source, move_into, move_onto, move_apply,
}
use fslite.Mutate.Remove.{RemoveOptions, removed, remove_tx, remove_node, remove_apply}
use fslite.Purge.{
  purge_subtree, collect_generations, subtree, delete_node, is_gone, is_gone_id, delete_generations,
}
use fslite.Trash.{
  trash_tx, trash_node, trash_apply, insert_trash, trashed, restore_tx, restore_row, restore_node,
  restore_at, restore_apply, restore_place, fetch_trash_row, delete_trash, restored,
}
use fslite.Refusal.Moving.{IsMove, move_tx-settles}
use fslite.Refusal.Removing.{IsRemoval, remove_tx-settles}
use fslite.Refusal.Trashing.{IsTrashing, trash_tx-settles}
use fslite.Refusal.Restoring.{IsRestoration, restore_tx-settles}
use package.fslite.Tests.{
  sample_node, changed, active, sample_host, sample_db, sample_root, docs_row, loop_row, file_row,
  old_row, sample_trash, path_of, sample_db-FeedIsDense, sample_db-HasUniqueNames,
}

resolve-resolve_following_example :
    resolve_following sample_db 1 (path_of (codes "/docs/a")) true ≡ found file_row
unfolding resolve segments descend fetch_root fetch_active fetch_child find_by split is_empty
resolve-resolve_following_example =
    resolve-resolve_following sample_db 1 (path_of (codes "/docs/a")) true file_row refl refl

abbrev link_row : RawNode
link_row = sample_node 15 (some 10) (codes "al") symlink_kind (some (codes "/docs/a"))

abbrev linked_db : Db
linked_db = record sample_db { nodes = active link_row ∷ sample_db.nodes }

resolve_following-Chain_example :
    resolve_following linked_db 1 (path_of (codes "/al")) true ≡ found file_row
unfolding resolve segments descend fetch_root fetch_active fetch_child find_by split is_empty
    follow_one follow_text follow_absolute split_segments drop_dots parse_target is_absolute
    starts_with_slash normalize normalize_onto push_segment render concat_segments
resolve_following-Chain_example =
    resolve_following-Chain linked_db 1 (path_of (codes "/al")) link_row file_row 1 refl
      (hop link_row sample_root file_row (codes "docs" ∷ codes "a" ∷ []) refl refl refl here) refl

resolve_following-IsStored_example :
    IsStored sample_db 1 file_row × ((true && file_row.kind == symlink_kind) ≡ false)
unfolding resolve_following walk segments fetch_root fetch_active fetch_child find_by split is_empty
resolve_following-IsStored_example =
    resolve_following-IsStored sample_db 1 (path_of (codes "/docs/a")) true file_row refl

fetch_child_unique_example : fetch_child sample_db 1 11 (codes "a") ≡ some file_row
fetch_child_unique_example =
    fetch_child_unique sample_db (active sample_root ∷ active docs_row ∷ active loop_row ∷ [])
      ((record { node = old_row; trashed_at_ms = some 5 }) ∷ []) (active file_row) 11
      sample_db-HasUniqueNames refl refl refl

abbrev some_note : Note
some_note = record {
  kind = ChangeKind.created;
  node_id = some 11;
  old_path = none;
  new_path = none;
  revision = some 1;
}

append_change-next_example :
    append_change 1 some_note [] 7 sample_db
    ≡ done tt (record sample_db {
      workspaces = bump_seq 1 7 sample_db.workspaces;
      changes =
          change_row 1 (suc (seq_of 1 sample_db.workspaces)) some_note [] 7 ∷ sample_db.changes;
    })
unfolding any_by
append_change-next_example =
    append_change-next sample_db 1 some_note [] 7 sample_db-FeedIsDense refl

abbrev trashed_row : NodeRow
trashed_row = record { node = old_row; trashed_at_ms = some 5 }

abbrev moved_file : RawNode
moved_file = moved_row 1 file_row 10 (codes "b") 1000

abbrev after_move : Db
after_move =
    record (changed ChangeKind.moved file_row (some (codes "/docs/a")) (some (codes "/b")) 2 1000) {
      nodes =
          active sample_root
          ∷ active docs_row
          ∷ active loop_row
          ∷ active moved_file
          ∷ trashed_row
          ∷ [];
      ticks = 1;
    }

abbrev expecting_one : MoveOptions
expecting_one = record { overwrite = false; expected_revision = some 1 }

move_tx-settles_example :
    IsMove sample_db 1
      (path_of (codes "/docs/a"))
      (path_of (codes "/b"))
      expecting_one
      (moved_to moved_file)
      after_move
    ⊎ ((true ≡ false) × (after_move ≡ sample_db))
unfolding move_tx move_source move_into move_onto move_apply resolve_destination
    is_same_or_descendant relocate_node relocation_ok references_ok has_node has_generation occupied
    any_by set_where now_ms append_change insert_change bump_seq resolve_following walk segments
    fetch_root fetch_active fetch_child find_by split is_empty name parent rfind_slash
move_tx-settles_example =
    move_tx-settles sample_host 1 (path_of (codes "/docs/a")) (path_of (codes "/b")) expecting_one
      [] sample_db after_move (moved_to moved_file) refl

abbrev not_recursive : RemoveOptions
not_recursive = record { recursive = false; expected_revision = none }

-- what the removal of /docs/a leaves
abbrev after_remove : Db
after_remove = record (changed ChangeKind.removed file_row none none 1 1000) {
  nodes = active sample_root ∷ active docs_row ∷ active loop_row ∷ trashed_row ∷ [];
  changes =
      change_row 1 3
        (record {
          kind = ChangeKind.removed;
          node_id = some 13;
          old_path = some (codes "/docs/a");
          new_path = none;
          revision = none;
        })
        [] 1000
      ∷ sample_db.changes;
  ticks = 1;
}

remove_tx-settles_example :
    IsRemoval sample_db 1 (path_of (codes "/docs/a")) not_recursive after_remove
    ⊎ ((true ≡ false) × (after_remove ≡ sample_db))
unfolding remove_tx remove_node remove_apply purge_subtree collect_generations subtree delete_node
    is_gone is_gone_id delete_generations keep_by now_ms append_change insert_change bump_seq
    has_active_children any_by resolve_following walk segments fetch_root fetch_active fetch_child
    find_by split is_empty name
remove_tx-settles_example =
    remove_tx-settles sample_host 1 (path_of (codes "/docs/a")) not_recursive [] sample_db
      after_remove removed refl

abbrev new_trash : TrashRow
new_trash = record {
  id = 100;
  workspace_id = 1;
  node_id = 13;
  original_parent_id = 11;
  original_name = codes "a";
  deleted_at_ms = 1001;
}

abbrev after_trash : Db
after_trash = record (changed ChangeKind.trashed file_row (some (codes "/docs/a")) none 1 1001) {
  nodes =
      active sample_root
      ∷ active docs_row
      ∷ active loop_row
      ∷ (record { node = file_row; trashed_at_ms = some 1001 })
      ∷ trashed_row
      ∷ [];
  trash = sample_trash ∷ new_trash ∷ [];
  ticks = 2;
}

trash_tx-settles_example :
    IsTrashing sample_db 1 (path_of (codes "/docs/a")) none (trashed 100 file_row 1001) after_trash
    ⊎ ((true ≡ false) × (after_trash ≡ sample_db))
unfolding trash_tx trash_node trash_apply insert_trash update_node any_by set_where now_ms new_id
    append_change insert_change bump_seq resolve_following walk segments fetch_root fetch_active
    fetch_child find_by split is_empty name
trash_tx-settles_example =
    trash_tx-settles sample_host 1 [] (path_of (codes "/docs/a")) none sample_db after_trash
      (trashed 100 file_row 1001) refl

abbrev restored_file : RawNode
restored_file = record old_row { revision = 2; modified_at_ms = 1000 }

abbrev after_restore : Db
after_restore = record (changed ChangeKind.restored old_row none none 2 1000) {
  nodes =
      active sample_root
      ∷ active docs_row
      ∷ active loop_row
      ∷ active file_row
      ∷ active restored_file
      ∷ [];
  trash = [];
  ticks = 1;
}

restore_tx-settles_example :
    IsRestoration sample_db 1 20 none (some 1) (restored restored_file) after_restore
    ⊎ ((true ≡ false) × (after_restore ≡ sample_db))
unfolding restore_tx restore_row restore_node restore_at restore_apply restore_place fetch_trash_row
    fetch_by_id fetch_by_id_any delete_trash relocate_node relocation_ok references_ok has_node
    has_generation occupied any_by keep_by set_where now_ms append_change insert_change bump_seq
    fetch_active fetch_child find_by
restore_tx-settles_example =
    restore_tx-settles sample_host 1 20 [] none (some 1) sample_db after_restore
      (restored restored_file) refl
