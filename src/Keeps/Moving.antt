-- ===== src/Keeps/Moving.antt =====
-- `move_tx` and `remove_tx` under such an invariant.
use fslite.Common.{ℕ, refl, false, Option, none, some, Text}
use fslite.Path.{VirtualPath}
use fslite.Schema.{RawNode, Db}
use fslite.Sql.{Host}
use fslite.Resolve.{ResolveOutcome, found, not_found, broken_link, link_loop, resolve_following}
use fslite.Mutate.{
  Destination, ready, is_root, parent_not_found, parent_not_directory, no_parent,
  resolve_destination,
}
use fslite.Mutate.Move.{MoveOptions, move_apply, move_onto, move_into, move_source, move_tx}
use fslite.Mutate.Remove.{RemoveOptions, remove_apply, remove_node, remove_tx}
use package.fslite.Keeps.{ends, Keeps, Holds-if, Keeps-pure, Keeps-panic, keeps_rules}
use package.fslite.Keeps.Statements.{IsKept, KeepsIdentity, now_ms-Keeps, purge_subtree-Keeps}

relocated-KeepsIdentity :
    (parent_id : ℕ) (dest_name : Text) (revision now : ℕ)
    → KeepsIdentity (λ r. record r {
      node = record r.node {
        parent_id = some parent_id;
        name = dest_name;
        revision = revision;
        modified_at_ms = now;
      };
    })
relocated-KeepsIdentity parent_id dest_name revision now = record {
  id = λ r. refl;
  workspace = λ r. refl;
}

module _ {P : Db → Type 0} (k : IsKept P) (host : Host) (ws : ℕ) where
  module _ (from to : VirtualPath) (options : MoveOptions) (actor : Text) where
    move_apply-Keeps :
        (source : RawNode) (parent_id : ℕ) (dest_name : Text)
        → Keeps P (move_apply host ws from to options actor source parent_id dest_name)
    unfolding move_apply
    move_apply-Keeps source parent_id dest_name =
        search (keeps_rules, now_ms-Keeps k, k.relocate, relocated-KeepsIdentity, k.append) depth 8

    move_onto-Keeps :
        (source : RawNode) (parent_id : ℕ) (existing : Option RawNode) (dest_name : Text)
        → Keeps P (move_onto host ws from to options actor source parent_id existing dest_name)
    unfolding move_onto
    move_onto-Keeps source parent_id none dest_name = move_apply-Keeps source parent_id dest_name
    move_onto-Keeps source parent_id (some existing) dest_name =
        search (keeps_rules, purge_subtree-Keeps k, move_apply-Keeps)

    move_into-Keeps :
        (source : RawNode) (dest : Destination)
        → Keeps P (move_into host ws from to options actor source dest)
    unfolding move_into
    move_into-Keeps source is_root = Keeps-pure P _
    move_into-Keeps source parent_not_found = Keeps-pure P _
    move_into-Keeps source parent_not_directory = Keeps-pure P _
    move_into-Keeps source no_parent = Keeps-panic P
    move_into-Keeps source (ready parent_id existing dest_name) =
        move_onto-Keeps source parent_id existing dest_name

    move_source-Keeps :
        (outcome : ResolveOutcome) → Keeps P (move_source host ws from to options actor outcome)
    unfolding move_source
    move_source-Keeps not_found = Keeps-pure P _
    move_source-Keeps broken_link = Keeps-pure P _
    move_source-Keeps link_loop = Keeps-pure P _
    move_source-Keeps (found source) = record {
      at = λ db h.
          search (Holds-if, ends, (move_into-Keeps source (resolve_destination db ws to)).at);
    }

    pub move_tx-Keeps : Keeps P (move_tx host ws from to options actor)
    unfolding move_tx
    move_tx-Keeps = record {
      at = λ db h.
          search (Holds-if, ends, (move_source-Keeps (resolve_following db ws from false)).at);
    }

  module _ (path : VirtualPath) (options : RemoveOptions) (actor : Text) where
    remove_apply-Keeps : (node : RawNode) → Keeps P (remove_apply host ws path options actor node)
    unfolding remove_apply
    remove_apply-Keeps node =
        search (keeps_rules, now_ms-Keeps k, purge_subtree-Keeps k, k.append) depth 8

    remove_node-Keeps :
        (outcome : ResolveOutcome) → Keeps P (remove_node host ws path options actor outcome)
    unfolding remove_node
    remove_node-Keeps not_found = Keeps-pure P _
    remove_node-Keeps broken_link = Keeps-pure P _
    remove_node-Keeps link_loop = Keeps-pure P _
    remove_node-Keeps (found node) = record {
      at = λ db h. search (Holds-if, ends, (remove_apply-Keeps node).at);
    }

    pub remove_tx-Keeps : Keeps P (remove_tx host ws path options actor)
    unfolding remove_tx
    remove_tx-Keeps = record {
      at = λ db h.
          search (Holds-if, ends, (remove_node-Keeps (resolve_following db ws path false)).at);
    }
