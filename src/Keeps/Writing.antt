-- ===== src/Keeps/Writing.antt =====
-- `touch_tx`, `set_attribute_tx` and `remove_attribute_tx` under such an invariant.
use fslite.Common.{ℕ, refl, false, Option, none, some, Text, inl, inr, Option-cases}
use fslite.Path.{VirtualPath, name, parent}
use fslite.Schema.{RawNode, Db, ChangeKind}
use fslite.Sql.{Host, done, panicked}
use fslite.Resolve.{
  ResolveOutcome, found, not_found, broken_link, link_loop, resolve_following, resolve, fetch_by_id,
}
use fslite.Mutate.Attribute.{
  set_check, attribute_apply, set_found, set_outcome, set_attribute_tx, remove_found,
  remove_outcome, remove_attribute_tx,
}
use fslite.Content.Touch.{
  TouchOptions, FinalizeParams, delete_old, finalize_create, finalize_named, finalize_in,
  finalize_absent, finalize_update, finalize_existing, finalize_tx, touch_create, touch_update,
  touch_found, touch_tx,
}
use package.fslite.Keeps.{ends, panics, Keeps, Holds-if, Keeps-pure, Keeps-panic, keeps_rules}
use package.fslite.Keeps.Statements.{
  IsKept, IsQuiet, new_id-Keeps, now_ms-Keeps, create_generation-Keeps, finalize_generation-Keeps,
  delete_generation-Keeps,
}

stamped-IsQuiet :
    (revision now : ℕ)
    → IsQuiet (λ r. record r { node = record r.node { revision = revision; modified_at_ms = now } })
stamped-IsQuiet revision now = record {
  id = λ r. refl;
  workspace = λ r. refl;
  parent = λ r. refl;
  name = λ r. refl;
  active = λ r h. h;
}

accessed-IsQuiet :
    (revision now : ℕ)
    → IsQuiet (λ r. record r {
      node = record r.node { revision = revision; modified_at_ms = now; accessed_at_ms = now };
    })
accessed-IsQuiet revision now = record {
  id = λ r. refl;
  workspace = λ r. refl;
  parent = λ r. refl;
  name = λ r. refl;
  active = λ r h. h;
}

rewritten-IsQuiet :
    (generation length revision now : ℕ)
    → IsQuiet (λ r. record r {
      node = record r.node {
        content_generation_id = some generation;
        size = length;
        revision = revision;
        modified_at_ms = now;
        accessed_at_ms = now;
      };
    })
rewritten-IsQuiet generation length revision now = record {
  id = λ r. refl;
  workspace = λ r. refl;
  parent = λ r. refl;
  name = λ r. refl;
  active = λ r h. h;
}

module _ {P : Db → Type 0} (k : IsKept P) (host : Host) (ws : ℕ) where
  read_back-Keeps :
      {A : Type 0} (i : ℕ) (f : RawNode → Db → A)
      → Keeps P
          (λ db. elim (fetch_by_id db ws i) [ none ↦ panicked | some row ↦ done (f row db) db ])
  read_back-Keeps i f = record {
    at = λ db h. elim (Option-cases (fetch_by_id db ws i)) [
      | inl e ↦ rw e panics
      | inr (row, e) ↦ rw e (ends h)
    ];
  }

  module _ (path : VirtualPath) (key : Text) (actor : Text) where
    attribute_apply-Keeps :
        (kind : ChangeKind) (node : RawNode)
        → Keeps P (attribute_apply host ws path key actor kind node)
    unfolding attribute_apply
    attribute_apply-Keeps kind node =
        search (keeps_rules, now_ms-Keeps k, k.update, stamped-IsQuiet, k.append, read_back-Keeps)
          depth 8

    set_found-Keeps :
        (value : Text) (expected : Option ℕ) (node : RawNode)
        → Keeps P (set_found host ws path key actor value expected node)
    unfolding set_found
    set_found-Keeps value expected node = record {
      at = λ db h. elim (Option-cases (set_check db node key value expected)) [
        | inl e ↦
            rw (set_found, e)
              ((attribute_apply-Keeps ChangeKind.attribute_set node).at _ (k.other db _ _ _ _ _ h))
        | inr (o, e) ↦ rw (set_found, e) (ends h)
      ];
    }

    set_outcome-Keeps :
        (value : Text) (expected : Option ℕ) (outcome : ResolveOutcome)
        → Keeps P (set_outcome host ws path key actor value expected outcome)
    unfolding set_outcome
    set_outcome-Keeps value expected not_found = Keeps-pure P _
    set_outcome-Keeps value expected broken_link = Keeps-pure P _
    set_outcome-Keeps value expected link_loop = Keeps-pure P _
    set_outcome-Keeps value expected (found node) = set_found-Keeps value expected node

    pub set_attribute_tx-Keeps :
        (value : Text) (expected : Option ℕ)
        → Keeps P (set_attribute_tx host ws path key actor value expected)
    unfolding set_attribute_tx
    set_attribute_tx-Keeps value expected = record {
      at = λ db h. (set_outcome-Keeps value expected (resolve_following db ws path false)).at db h;
    }

    remove_found-Keeps : (node : RawNode) → Keeps P (remove_found host ws path key actor node)
    unfolding remove_found
    remove_found-Keeps node = record {
      at = λ db h.
          Holds-if P _ _ _
            ((attribute_apply-Keeps ChangeKind.attribute_removed node).at _
              (k.other db _ _ _ _ _ h))
            (ends h);
    }

    remove_outcome-Keeps :
        (expected : Option ℕ) (outcome : ResolveOutcome)
        → Keeps P (remove_outcome host ws path key actor expected outcome)
    unfolding remove_outcome
    remove_outcome-Keeps expected not_found = Keeps-pure P _
    remove_outcome-Keeps expected broken_link = Keeps-pure P _
    remove_outcome-Keeps expected link_loop = Keeps-pure P _
    remove_outcome-Keeps expected (found node) = record {
      at = λ db h. search (Holds-if, ends, (remove_found-Keeps node).at);
    }

    pub remove_attribute_tx-Keeps :
        (expected : Option ℕ) → Keeps P (remove_attribute_tx host ws path key actor expected)
    unfolding remove_attribute_tx
    remove_attribute_tx-Keeps expected = record {
      at = λ db h. (remove_outcome-Keeps expected (resolve_following db ws path false)).at db h;
    }

  module _ (path : VirtualPath) (actor : Text) where
    delete_old-Keeps : (old : Option ℕ) (new : ℕ) → Keeps P (delete_old old new)
    unfolding delete_old
    delete_old-Keeps none new = Keeps-pure P tt
    delete_old-Keeps (some old) new = search (keeps_rules, delete_generation-Keeps k)

    finalize_create-Keeps :
        (parent_id : ℕ) (n : Text) (g l : ℕ)
        → Keeps P (finalize_create host ws path actor parent_id n g l)
    unfolding finalize_create
    finalize_create-Keeps parent_id n g l =
        search
          (
            keeps_rules,
            new_id-Keeps k,
            now_ms-Keeps k,
            k.insert,
            k.append,
            finalize_generation-Keeps k,
          )
          depth 10

    finalize_named-Keeps :
        (p : RawNode) (n : Option Text) (g l : ℕ)
        → Keeps P (finalize_named host ws path actor p n g l)
    unfolding finalize_named
    finalize_named-Keeps p none g l = Keeps-panic P
    finalize_named-Keeps p (some n) g l = finalize_create-Keeps p.id n g l

    finalize_in-Keeps :
        (p : Option RawNode) (params : FinalizeParams) (g l : ℕ)
        → Keeps P (finalize_in host ws path actor p params g l)
    unfolding finalize_in
    finalize_in-Keeps none params g l = Keeps-pure P _
    finalize_in-Keeps (some p) params g l = record {
      at = λ db h. search (Holds-if, ends, (finalize_named-Keeps p (name path) g l).at);
    }

    finalize_absent-Keeps :
        (p : Option VirtualPath) (params : FinalizeParams) (g l : ℕ)
        → Keeps P (finalize_absent host ws path actor p params g l)
    unfolding finalize_absent
    finalize_absent-Keeps none params g l = Keeps-pure P _
    finalize_absent-Keeps (some p) params g l = record {
      at = λ db h. (finalize_in-Keeps (resolve db ws p) params g l).at db h;
    }

    finalize_update-Keeps :
        (node : RawNode) (g l : ℕ) → Keeps P (finalize_update host ws path actor node g l)
    unfolding finalize_update
    finalize_update-Keeps node g l =
        search
          (
            keeps_rules,
            now_ms-Keeps k,
            k.update,
            rewritten-IsQuiet,
            k.append,
            finalize_generation-Keeps k,
            delete_old-Keeps,
          )
          depth 10

    finalize_existing-Keeps :
        (node : Option RawNode) (params : FinalizeParams) (g l : ℕ)
        → Keeps P (finalize_existing host ws path actor node params g l)
    unfolding finalize_existing
    finalize_existing-Keeps none params g l = finalize_absent-Keeps (parent path) params g l
    finalize_existing-Keeps (some node) params g l = record {
      at = λ db h. search (Holds-if, ends, (finalize_update-Keeps node g l).at);
    }

    finalize_tx-Keeps :
        (params : FinalizeParams) (g l : ℕ) → Keeps P (finalize_tx host ws path actor params g l)
    unfolding finalize_tx
    finalize_tx-Keeps params g l = record {
      at = λ db h. (finalize_existing-Keeps (resolve db ws path) params g l).at db h;
    }

    touch_create-Keeps : Keeps P (touch_create host ws path actor)
    unfolding touch_create
    touch_create-Keeps =
        search
          (keeps_rules, create_generation-Keeps k, finalize_generation-Keeps k, finalize_tx-Keeps)
          depth 8

    touch_update-Keeps : (node : RawNode) → Keeps P (touch_update host ws path actor node)
    unfolding touch_update
    touch_update-Keeps node =
        search (keeps_rules, now_ms-Keeps k, k.update, accessed-IsQuiet, read_back-Keeps) depth 8

    touch_found-Keeps :
        (node : Option RawNode) (options : TouchOptions)
        → Keeps P (touch_found host ws path actor node options)
    unfolding touch_found
    touch_found-Keeps none options = record {
      at = λ db h. search (Holds-if, ends, touch_create-Keeps.at);
    }
    touch_found-Keeps (some node) options = record {
      at = λ db h. search (Holds-if, ends, (touch_update-Keeps node).at);
    }

    pub touch_tx-Keeps : (options : TouchOptions) → Keeps P (touch_tx host ws path actor options)
    unfolding touch_tx
    touch_tx-Keeps options = record {
      at = λ db h. (touch_found-Keeps (resolve db ws path) options).at db h;
    }
