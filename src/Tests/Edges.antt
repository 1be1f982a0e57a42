-- ===== src/Tests/Edges.antt =====
-- Runs at the edges of the operations: what they do with a tree that links lead around in.
use fslite.Common.{◌≡◌, refl, false, true, none, some, [], ◌∷◌, codes}
use fslite.Path.{
  segments, split, is_empty, name, parent, rfind_slash, is_same_or_descendant, parse_target,
  is_absolute, starts_with_slash, normalize, normalize_onto, push_segment, render, concat_segments,
}
use fslite.Schema.{symlink_kind, Db}
use fslite.Sql.{
  Ran, done, find_by, any_by, now_ms, new_id, relocate_node, relocation_ok, references_ok, has_node,
  has_generation, occupied, set_where,
}
use fslite.Change.{append_change, bump_seq, insert_change}
use fslite.Resolve.{
  resolve, descend, resolve_following, fetch_root, fetch_active, fetch_child, fetch_by_id, walk,
  follow_one, follow_text, follow_absolute, split_segments, drop_dots,
}
use fslite.Mutate.{resolve_destination}
use fslite.Mutate.Move.{move_tx, move_source, move_into, move_onto, move_apply}
use fslite.Content.{create_generation, finalize_generation, insert_generation}
use fslite.Content.Touch.{
  TouchOutcome, touch_tx, touch_found, touch_create, finalize_tx, finalize_existing,
  finalize_absent, finalize_in, touched_of,
}
use package.fslite.Tests.{
  active, sample_host, sample_db, sample_root, sample_node, docs_row, path_of,
}

-- /docs, and a link /l to it
abbrev linked_db : Db
linked_db = record sample_db {
  nodes =
      active sample_root
      ∷ active docs_row
      ∷ active (sample_node 12 (some 10) (codes "l") symlink_kind (some (codes "/docs")))
      ∷ [];
  trash = [];
}

abbrev db_of {ℓ} : {A : Type ℓ} → Ran A → Db
db_of (done a db) = db
db_of _ = sample_db

-- `mv /docs /l/x`: the directory becomes its own parent.
move_below_itself :
    fetch_by_id
      (db_of (
        move_tx sample_host 1
          (path_of (codes "/docs"))
          (path_of (codes "/l/x"))
          (record { overwrite = false; expected_revision = none })
          []
          linked_db))
      1
      11
    ≡ some (record docs_row {
      parent_id = some 11;
      name = codes "x";
      revision = 2;
      modified_at_ms = 1000;
    })
unfolding move_tx move_source move_into move_onto move_apply resolve_destination
    is_same_or_descendant relocate_node relocation_ok references_ok has_node has_generation occupied
    any_by set_where now_ms append_change insert_change bump_seq resolve_following walk segments
    fetch_root fetch_active fetch_child fetch_by_id find_by split is_empty name parent rfind_slash
    follow_one follow_text follow_absolute split_segments drop_dots parse_target is_absolute
    starts_with_slash normalize normalize_onto push_segment render concat_segments
move_below_itself = refl

-- `touch /no/a`: the file is not made, and a generation that no node refers to is left.
touch_nowhere :
    touch_tx sample_host 1
      (path_of (codes "/no/a"))
      []
      (record { create = true; expected_revision = none })
      sample_db
    ≡ done TouchOutcome.missing (record sample_db {
      generations = (record { id = 100; workspace_id = 1; complete = true; length = 0 }) ∷ [];
      ticks = 2;
    })
unfolding touch_tx touch_found touch_create touched_of create_generation finalize_generation
    insert_generation finalize_tx finalize_existing finalize_absent finalize_in resolve descend
    any_by now_ms new_id segments fetch_root fetch_active fetch_child find_by split is_empty name
    parent rfind_slash
touch_nowhere = refl
