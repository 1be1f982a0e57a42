-- ===== src/Keeps/Trashing.antt =====
-- `trash_tx`, `restore_tx` and `purge_tx` under such an invariant.
use fslite.Common.{ℕ, refl, false, Option, none, some, Text, inl, inr, Option-cases}
use fslite.Path.{VirtualPath}
use fslite.Schema.{RawNode, TrashRow, Db}
use fslite.Sql.{Host, done, panicked}
use fslite.Resolve.{
  ResolveOutcome, found, not_found, broken_link, link_loop, resolve_following, fetch_by_id,
  fetch_by_id_any,
}
use fslite.Trash.{
  Place, place, nowhere, no_parent, mark_trashed, trash_apply, trash_node, trash_tx, mark_restored,
  restore_apply, restore_at, restore_node, restore_row, restore_tx, restore_place, restored,
  fetch_trash_row, purge_row, purge_tx,
}
use package.fslite.Keeps.{ends, panics, Keeps, Holds-if, Keeps-pure, Keeps-panic, keeps_rules}
use package.fslite.Keeps.Statements.{
  IsKept, IsQuiet, KeepsIdentity, new_id-Keeps, now_ms-Keeps, insert_trash-Keeps,
  delete_trash-Keeps, purge_subtree-Keeps,
}

marked-IsQuiet : (now : ℕ) → IsQuiet (mark_trashed now)
marked-IsQuiet now = record {
  id = λ r. refl;
  workspace = λ r. refl;
  parent = λ r. refl;
  name = λ r. refl;
  active = λ r h. cc;
}

restored-KeepsIdentity :
    (parent_id : ℕ) (n : Text) (revision now : ℕ)
    → KeepsIdentity (mark_restored parent_id n revision now)
restored-KeepsIdentity parent_id n revision now = record { id = λ r. refl; workspace = λ r. refl }

module _ {P : Db → Type 0} (k : IsKept P) (host : Host) (ws : ℕ) where
  module _ (actor : Text) where
    trash_apply-Keeps :
        (path : VirtualPath) (node : RawNode) (p : Option ℕ)
        → Keeps P (trash_apply host ws actor path node p)
    unfolding trash_apply
    trash_apply-Keeps path node none = Keeps-panic P
    trash_apply-Keeps path node (some p) =
        search
          (
            keeps_rules,
            new_id-Keeps k,
            now_ms-Keeps k,
            insert_trash-Keeps k,
            k.update,
            marked-IsQuiet,
            k.append,
          )
          depth 10

    trash_node-Keeps :
        (path : VirtualPath) (expected : Option ℕ) (outcome : ResolveOutcome)
        → Keeps P (trash_node host ws actor path expected outcome)
    unfolding trash_node
    trash_node-Keeps path expected not_found = Keeps-pure P _
    trash_node-Keeps path expected broken_link = Keeps-pure P _
    trash_node-Keeps path expected link_loop = Keeps-pure P _
    trash_node-Keeps path expected (found node) = record {
      at = λ db h. search (Holds-if, ends, (trash_apply-Keeps path node node.parent_id).at);
    }

    pub trash_tx-Keeps :
        (path : VirtualPath) (expected : Option ℕ) → Keeps P (trash_tx host ws actor path expected)
    unfolding trash_tx
    trash_tx-Keeps path expected = record {
      at = λ db h. search (
        Holds-if,
        ends,
        (trash_node-Keeps path expected (resolve_following db ws path false)).at,
      );
    }

  module _ (trash_id : ℕ) (actor : Text) where
    read_back-Keeps :
        (i : ℕ)
        → Keeps P (λ db. elim (fetch_by_id db ws i) [
          | none ↦ panicked
          | some row ↦ done (restored row) db
        ])
    read_back-Keeps i = record {
      at = λ db h. elim (Option-cases (fetch_by_id db ws i)) [
        | inl e ↦ rw e panics
        | inr (row, e) ↦ rw e (ends h)
      ];
    }

    restore_apply-Keeps :
        (node : RawNode) (p : ℕ) (n : Text)
        → Keeps P (restore_apply host ws trash_id actor node p n)
    unfolding restore_apply
    restore_apply-Keeps node p n =
        search
          (
            keeps_rules,
            now_ms-Keeps k,
            k.relocate,
            restored-KeepsIdentity,
            delete_trash-Keeps k,
            k.append,
            read_back-Keeps,
          )
          depth 10

    restore_at-Keeps :
        (node : RawNode) (p : Place) → Keeps P (restore_at host ws trash_id actor node p)
    unfolding restore_at
    restore_at-Keeps node (nowhere outcome) = Keeps-pure P outcome
    restore_at-Keeps node no_parent = Keeps-panic P
    restore_at-Keeps node (place p n) = record {
      at = λ db h. search (Holds-if, ends, (restore_apply-Keeps node p n).at);
    }

    restore_node-Keeps :
        (destination : Option VirtualPath) (expected : Option ℕ) (row : TrashRow)
        (node : Option RawNode)
        → Keeps P (restore_node host ws trash_id actor destination expected row node)
    unfolding restore_node
    restore_node-Keeps destination expected row none = Keeps-pure P _
    restore_node-Keeps destination expected row (some node) = record {
      at = λ db h.
          search (Holds-if, ends, (restore_at-Keeps node (restore_place db ws destination row)).at);
    }

    restore_row-Keeps :
        (destination : Option VirtualPath) (expected : Option ℕ) (row : Option TrashRow)
        → Keeps P (restore_row host ws trash_id actor destination expected row)
    unfolding restore_row
    restore_row-Keeps destination expected none = Keeps-pure P _
    restore_row-Keeps destination expected (some row) = record {
      at = λ db h.
          (restore_node-Keeps destination expected row (fetch_by_id_any db ws row.node_id)).at db h;
    }

    pub restore_tx-Keeps :
        (destination : Option VirtualPath) (expected : Option ℕ)
        → Keeps P (restore_tx host ws trash_id actor destination expected)
    unfolding restore_tx
    restore_tx-Keeps destination expected = record {
      at =
          λ db h. (restore_row-Keeps destination expected (fetch_trash_row db ws trash_id)).at db h;
    }

    purge_row-Keeps : (row : Option TrashRow) → Keeps P (purge_row host ws trash_id actor row)
    unfolding purge_row
    purge_row-Keeps none = Keeps-pure P _
    purge_row-Keeps (some row) =
        search (keeps_rules, now_ms-Keeps k, purge_subtree-Keeps k, k.append) depth 8

    pub purge_tx-Keeps : Keeps P (purge_tx host ws trash_id actor)
    unfolding purge_tx
    purge_tx-Keeps = record {
      at = λ db h. (purge_row-Keeps (fetch_trash_row db ws trash_id)).at db h;
    }
