-- ===== src/Keeps/Copying.antt =====
-- `copy_tx` under such an invariant.
use fslite.Common.{
  ℕ, zero, suc, false, Option, none, some, List, [], ◌∷◌, Text, inl, inr, Option-cases,
}
use fslite.Path.{VirtualPath}
use fslite.Schema.{RawNode, Db}
use fslite.Sql.{Host, Ran, done, failed, diverged, panicked}
use fslite.Resolve.{
  ResolveOutcome, found, not_found, broken_link, link_loop, resolve_following, fetch_by_id,
}
use fslite.Mutate.{
  Destination, ready, is_root, parent_not_found, parent_not_directory, no_parent,
  resolve_destination,
}
use fslite.Mutate.Copy.{
  CopyOptions, Pending, first_of_two, copied_top, fetch_full, copy_generation, copy_content_of,
  copy_content, copy_one, push_children, copy_loop, copy_subtree, copy_apply, copy_onto, copy_into,
  copy_source, copy_tx,
}
use package.fslite.Keeps.{
  Holds, ends, fails, runs_on, panics, Keeps, Holds-if, Keeps-then, Keeps-pure, Keeps-panic,
  keeps_rules,
}
use package.fslite.Keeps.Statements.{
  IsKept, new_id-Keeps, now_ms-Keeps, purge_subtree-Keeps, create_generation-Keeps,
  finalize_generation-Keeps, copy_chunks-Keeps, copy_attributes-Keeps,
}

-- what `copy_loop` makes of a round
Holds-round :
    {A : Type 0} (P : Db → Type 0) (r : Ran RawNode) (f : RawNode → Db → Ran A)
    → Holds P r
    → ((c : RawNode) (db : Db) → P db → Holds P (f c db))
    → Holds P (elim r [
      | done new_node db' ↦ f new_node db'
      | failed e t ↦ failed e t
      | diverged ↦ diverged
      | panicked ↦ panicked
    ])
Holds-round P _ f (ends {a} {db} h) kf = kf a db h
Holds-round P _ f fails kf = fails
Holds-round P _ f runs_on kf = runs_on
Holds-round P _ f panics kf = panics

module _ {P : Db → Type 0} (k : IsKept P) (host : Host) (ws : ℕ) where
  module _ (now : ℕ) where
    copy_generation-Keeps : (g l : ℕ) → Keeps P (copy_generation host ws now g l)
    unfolding copy_generation
    copy_generation-Keeps g l =
        search
          (keeps_rules, create_generation-Keeps k, finalize_generation-Keeps k, copy_chunks-Keeps k)
          depth 8

    copy_content_of-Keeps : (g : Option ℕ) (l : ℕ) → Keeps P (copy_content_of host ws now g l)
    unfolding copy_content_of
    copy_content_of-Keeps none l = Keeps-pure P _
    copy_content_of-Keeps (some g) l = copy_generation-Keeps g l

    copy_content-Keeps : (old : RawNode) → Keeps P (copy_content host ws now old)
    unfolding copy_content
    copy_content-Keeps old = record {
      at = λ db h.
          search
            (Holds-if, ends, fails, (copy_content_of-Keeps old.content_generation_id old.size).at);
    }

    copy_one-Keeps : (p : Pending) → Keeps P (copy_one host ws now p)
    unfolding copy_one
    copy_one-Keeps p =
        search (keeps_rules, new_id-Keeps k, copy_content-Keeps, k.insert, copy_attributes-Keeps k)
          depth 10

    copied_top-Keeps : (top : Option RawNode) → Keeps P (copied_top top)
    unfolding copied_top
    copied_top-Keeps none = Keeps-panic P
    copied_top-Keeps (some top) = Keeps-pure P top

    copy_loop-Keeps :
        (rounds : ℕ) (stack : List Pending) (top : Option RawNode)
        → Keeps P (copy_loop host ws now rounds stack top)
    unfolding copy_loop
    copy_loop-Keeps zero [] top = copied_top-Keeps top
    copy_loop-Keeps (suc rounds) [] top = copied_top-Keeps top
    copy_loop-Keeps zero (p ∷ stack) top = record { at = λ db h. runs_on }
    copy_loop-Keeps (suc rounds) (p ∷ stack) top = record {
      at = λ db h. Holds-round P _ _ ((copy_one-Keeps p).at db h) (λ c db' h'.
          (copy_loop-Keeps rounds (push_children host ws now db' p c stack) (first_of_two top c)).at
            db' h');
    }

    fetch_full-Keeps : (i : ℕ) → Keeps P (fetch_full ws i)
    unfolding fetch_full
    fetch_full-Keeps i = record {
      at = λ db h. elim (Option-cases (fetch_by_id db ws i)) [
        | inl e ↦ rw (fetch_full, e) fails
        | inr (row, e) ↦ rw (fetch_full, e) (ends h)
      ];
    }

    copy_subtree-Keeps :
        (source : RawNode) (parent_id : ℕ) (n : Text)
        → Keeps P (copy_subtree host ws now source parent_id n)
    unfolding copy_subtree
    copy_subtree-Keeps source parent_id n = search (keeps_rules, fetch_full-Keeps, copy_loop-Keeps)

  module _ (from to : VirtualPath) (options : CopyOptions) (actor : Text) where
    copy_apply-Keeps :
        (source : RawNode) (parent_id : ℕ) (n : Text)
        → Keeps P (copy_apply host ws from to options actor source parent_id n)
    unfolding copy_apply
    copy_apply-Keeps source parent_id n =
        search (keeps_rules, now_ms-Keeps k, copy_subtree-Keeps, k.append) depth 8

    copy_onto-Keeps :
        (source : RawNode) (parent_id : ℕ) (existing : Option RawNode) (n : Text)
        → Keeps P (copy_onto host ws from to options actor source parent_id existing n)
    unfolding copy_onto
    copy_onto-Keeps source parent_id none n = copy_apply-Keeps source parent_id n
    copy_onto-Keeps source parent_id (some existing) n = record {
      at = λ db h. Holds-if P _ _ _ (ends h) (
          (Keeps-then P _ _ (purge_subtree-Keeps k host existing.id)
              (copy_apply-Keeps source parent_id n)).at
            db h);
    }

    copy_into-Keeps :
        (source : RawNode) (dest : Destination)
        → Keeps P (copy_into host ws from to options actor source dest)
    unfolding copy_into
    copy_into-Keeps source is_root = Keeps-pure P _
    copy_into-Keeps source parent_not_found = Keeps-pure P _
    copy_into-Keeps source parent_not_directory = Keeps-pure P _
    copy_into-Keeps source no_parent = Keeps-panic P
    copy_into-Keeps source (ready parent_id existing n) =
        copy_onto-Keeps source parent_id existing n

    copy_source-Keeps :
        (outcome : ResolveOutcome) → Keeps P (copy_source host ws from to options actor outcome)
    unfolding copy_source
    copy_source-Keeps not_found = Keeps-pure P _
    copy_source-Keeps broken_link = Keeps-pure P _
    copy_source-Keeps link_loop = Keeps-pure P _
    copy_source-Keeps (found source) = record {
      at = λ db h.
          search (Holds-if, ends, (copy_into-Keeps source (resolve_destination db ws to)).at);
    }

    pub copy_tx-Keeps : Keeps P (copy_tx host ws from to options actor)
    unfolding copy_tx
    copy_tx-Keeps = record {
      at = λ db h. (copy_source-Keeps (resolve_following db ws from false)).at db h;
    }
