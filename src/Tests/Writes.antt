-- ===== src/Tests/Writes.antt =====
-- The theorems on copies and attributes, at the sample.
use fslite.Mutate.Attribute.{count_attributes, upsert_attribute}
use fslite.Common.{◌≡◌, refl, true, false, none, some, [], ◌∷◌, ◌++◌, codes, ◌⊎◌}
use fslite.Path.{segments, split, is_empty, name, parent, rfind_slash}
use fslite.Schema.{RawNode, ChangeKind, Db}
use fslite.Sql.{
  find_by, any_by, now_ms, new_id, insert_node, insert_ok, references_ok, has_node, has_generation,
  occupied, update_node, set_where,
}
use fslite.Change.{append_change, bump_seq, insert_change}
use fslite.Resolve.{resolve_following, fetch_root, fetch_active, fetch_child, fetch_by_id, walk}
use fslite.Mutate.{resolve_destination}
use fslite.Mutate.Copy.{
  CopyOptions, created, copied_row, copy_tx, copy_source, copy_into, copy_onto, copy_apply,
  copy_subtree, copy_loop, copy_one, copy_content, copy_attributes, fetch_full, push_children,
  first_of_two, copied_top,
}
use fslite.Mutate.Attribute.{
  updated, set_attribute_tx, set_outcome, set_found, set_check, attribute_apply,
  build_attributes_map,
}
use fslite.Refusal.Copying.{IsCopy, copy_tx-settles}
use fslite.Refusal.Attributes.{IsSetting, set_attribute_tx-settles}
use package.fslite.Tests.{
  active, changed, sample_host, sample_db, loop_row, sample_root, docs_row, file_row, old_row,
  path_of,
}

abbrev copied_link : RawNode
copied_link = copied_row loop_row 101 1 10 (codes "l") none 1000

abbrev after_copy : Db
after_copy =
    record (changed ChangeKind.copied copied_link (some (codes "/loop")) (some (codes "/l")) 1
      1000) { nodes = sample_db.nodes ++ active copied_link ∷ []; ticks = 2 }

abbrev plain_copy : CopyOptions
plain_copy = record { recursive = false; overwrite = false; expected_revision = none }

copy_tx-settles_example :
    IsCopy sample_db 1
      (path_of (codes "/loop"))
      (path_of (codes "/l"))
      plain_copy
      (created copied_link)
      after_copy
    ⊎ ((true ≡ false) × (after_copy ≡ sample_db))
unfolding copy_tx copy_source copy_into copy_onto copy_apply copy_subtree copy_loop copy_one
    copy_content copy_attributes fetch_full push_children first_of_two copied_top
    resolve_destination insert_node insert_ok references_ok has_node has_generation occupied any_by
    now_ms new_id append_change insert_change bump_seq resolve_following walk segments fetch_root
    fetch_active fetch_child fetch_by_id find_by split is_empty name parent rfind_slash
copy_tx-settles_example =
    copy_tx-settles sample_host 1 (path_of (codes "/loop")) (path_of (codes "/l")) plain_copy []
      sample_db after_copy (created copied_link) refl

abbrev set_file : RawNode
set_file = record file_row { revision = 2; modified_at_ms = 1000 }

abbrev after_setting : Db
after_setting =
    record (changed ChangeKind.attribute_set file_row none (some (codes "/docs/a")) 2 1000) {
      nodes =
          active sample_root
          ∷ active docs_row
          ∷ active loop_row
          ∷ active set_file
          ∷ (record { node = old_row; trashed_at_ms = some 5 })
          ∷ [];
      attributes = (record { node_id = 13; key = codes "k"; value = codes "v" }) ∷ [];
      ticks = 1;
    }

set_attribute_tx-settles_example :
    IsSetting sample_host sample_db 1
      (path_of (codes "/docs/a"))
      (codes "k")
      (codes "v")
      (some 1)
      (updated set_file ((codes "k", codes "v") ∷ []))
      after_setting
    ⊎ ((true ≡ false) × (after_setting ≡ sample_db))
unfolding set_attribute_tx set_outcome set_found set_check attribute_apply build_attributes_map
    update_node set_where any_by now_ms append_change insert_change bump_seq resolve_following walk
    segments fetch_root fetch_active fetch_child fetch_by_id find_by split is_empty count_attributes
    upsert_attribute
set_attribute_tx-settles_example =
    set_attribute_tx-settles sample_host 1 (path_of (codes "/docs/a")) (codes "k") [] (codes "v")
      (some 1) sample_db after_setting (updated set_file ((codes "k", codes "v") ∷ [])) refl
