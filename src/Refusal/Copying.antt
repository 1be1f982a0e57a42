-- ===== src/Refusal/Copying.antt =====
-- `copy_tx` of crates/fslite-sqlite/src/mutate.rs.
use fslite.Common.{
  ℕ, zero, suc, ◌+◌, ◌≡◌, refl, sym, ap, ◌∙◌, Bool, true, false, not, ◌&&◌, ◌||◌, ◌==◌, Option,
  none, some, List, [], ◌∷◌, ◌++◌, append_assoc, append-nil, Text, inl, inr, ◌⊎◌, Option-cases,
  Bool-cases, arith,
}
use fslite.Path.{VirtualPath}
use fslite.Schema.{RawNode, NodeRow, GenerationRow, Db, directory_kind, file_kind, symlink_kind}
use fslite.Sql.{Host, Ran, done, failed, diverged, panicked, is_none, new_id, now_ms, any_by}
use fslite.Content.{create_generation, insert_generation, finalize_generation, copy_chunks}
use fslite.Resolve.{
  ResolveOutcome, found, not_found, broken_link, link_loop, resolve_following, fetch_by_id,
  fetch_active,
}
use fslite.Mutate.{
  conflicts, Destination, ready, is_root, parent_not_found, parent_not_directory, no_parent,
  resolve_destination,
}
use fslite.Mutate.Copy.{
  CopyOptions, CopyOutcome, created, Pending, copied_row, first_of_two, copied_top, fetch_full,
  copy_generation, copy_content_of, copy_content, copy_attributes, copy_one, push_children,
  copy_loop, copy_subtree, copy_apply, copy_onto, copy_into, copy_source, copy_tx,
}
use package.fslite.Refusal.{
  Ends, ends, fails, runs_on, panics, Ends-continue, Ends-done, Ends-if, Settled, declines,
}
use package.fslite.Refusal.Statements.{append_change-Logged, insert_node-Ends}
use package.fslite.Refusal.Purging.{Cleared, purge_subtree-Purged}

abbrev pub is_created : CopyOutcome → Bool
is_created (created row) = true
is_created _ = false

abbrev pub active : RawNode → NodeRow
active n = record { node = n; trashed_at_ms = none }

-- a row that is a new one but for what it says of the content
abbrev pub copy_of : RawNode → ℕ → ℕ → ℕ → Text → Option ℕ → ℕ → RawNode
copy_of full new ws parent_id dest_name generation now = record full {
  id = new;
  workspace_id = ws;
  parent_id = some parent_id;
  name = dest_name;
  revision = 1;
  created_at_ms = now;
  modified_at_ms = now;
  accessed_at_ms = now;
  content_generation_id = generation;
}

-- A copy that was made: the source is what `from` names, of the expected revision, and no directory
-- unless the copy is recursive. What stands at the destination is cleared away, which takes the
-- option; then the rows are those that were there, with a new one that has the parent and the name
-- of the destination and is else a copy of the source's row, of revision 1, and more behind it for
-- what is below. The new row is reported.
pub record IsCopy (db : Db) (ws : ℕ) (from to : VirtualPath) (options : CopyOptions)
    (out : CopyOutcome) (db' : Db) : Type 0 where
  pub source : RawNode
  pub parent_id : ℕ
  pub existing : Option RawNode
  pub dest_name : Text
  pub cleared : Db
  pub full : RawNode
  pub new : ℕ
  pub generation : Option ℕ
  pub now : ℕ
  pub below : List NodeRow
  pub is_source : resolve_following db ws from false ≡ found source
  pub is_expected : conflicts options.expected_revision source ≡ false
  pub is_file_or_recursive : (source.kind == directory_kind && not options.recursive) ≡ false
  pub is_destination : resolve_destination db ws to ≡ ready parent_id existing dest_name
  pub is_allowed : (is_none existing || options.overwrite) ≡ true
  pub is_cleared : Cleared db existing cleared
  pub is_full : fetch_by_id cleared ws source.id ≡ some full
  pub is_reported : out ≡ created (copy_of full new ws parent_id dest_name generation now)
  pub is_inserted :
      db'.nodes
      ≡ (cleared.nodes ++ active (copy_of full new ws parent_id dest_name generation now) ∷ [])
        ++ below

-- the table of the nodes as it was
abbrev SameNodes : Db → Db → Type 0
SameNodes db db' = db'.nodes ≡ db.nodes

module _ (host : Host) (ws now : ℕ) where
  insert_generation-SameNodes :
      (g : GenerationRow) (db : Db) → Ends (λ _. SameNodes db) (insert_generation g db)
  unfolding insert_generation
  insert_generation-SameNodes g db =
      elim (Bool-cases (
        not (any_by (λ x. x.id == g.id) db.generations)
        && any_by (λ w. w.id == g.workspace_id) db.workspaces)) [
          | inl e ↦ rw (insert_generation, e) (ends refl)
          | inr e ↦ rw (insert_generation, e) fails
        ]

  create_generation-SameNodes : (db : Db) → Ends (λ _. SameNodes db) (create_generation host ws db)
  unfolding create_generation new_id now_ms
  create_generation-SameNodes db =
      Ends-continue (λ _. SameNodes db) _ _
        (insert_generation-SameNodes _ (record db { ticks = db.ticks + 1 + 1 }))
        (λ _ db' same. ends same)

  copy_chunks-SameNodes :
      (new old : ℕ) (db : Db) → Ends (λ _. SameNodes db) (copy_chunks new old db)
  unfolding copy_chunks
  copy_chunks-SameNodes new old db =
      elim (Bool-cases (any_by (λ c. c.generation_id == new) db.chunks)) [
        | inl e ↦ rw (copy_chunks, e) fails
        | inr e ↦ rw (copy_chunks, e) (ends refl)
      ]

  copy_generation-SameNodes :
      (g l : ℕ) (db : Db) → Ends (λ _. SameNodes db) (copy_generation host ws now g l db)
  unfolding copy_generation finalize_generation
  copy_generation-SameNodes g l db =
      Ends-continue (λ _. SameNodes db) _ _ (create_generation-SameNodes db)
        (λ new db1 same.
          Ends-continue (λ _. SameNodes db) _ _ (copy_chunks-SameNodes new g db1)
            (λ _ db2 again. ends (again ∙ same)))

  copy_content_of-SameNodes :
      (g : Option ℕ) (l : ℕ) (db : Db)
      → Ends (λ _. SameNodes db) (copy_content_of host ws now g l db)
  unfolding copy_content_of
  copy_content_of-SameNodes none l db = ends refl
  copy_content_of-SameNodes (some g) l db = copy_generation-SameNodes g l db

  copy_content-SameNodes :
      (old : RawNode) (db : Db) → Ends (λ _. SameNodes db) (copy_content host ws now old db)
  unfolding copy_content
  copy_content-SameNodes old db =
      elim (Bool-cases (old.kind == directory_kind || old.kind == symlink_kind)) [
        | inl e ↦ rw (copy_content, e) (ends refl)
        | inr e ↦ elim (Bool-cases (old.kind == file_kind)) [
          | inl k ↦
              rw (copy_content, e, k)
                (copy_content_of-SameNodes old.content_generation_id old.size db)
          | inr k ↦ rw (copy_content, e, k) fails
        ]
      ]

  -- one more row, the copy
  record Copied (p : Pending) (db : Db) (row : RawNode) (db' : Db) : Type 0 where
    new : ℕ
    generation : Option ℕ
    is_row : row ≡ copied_row p.old new ws p.parent_id p.new_name generation now
    is_added : db'.nodes ≡ db.nodes ++ active row ∷ []

  copy_one-Copied : (p : Pending) (db : Db) → Ends (Copied p db) (copy_one host ws now p db)
  unfolding copy_one new_id copy_attributes
  copy_one-Copied p db =
      Ends-continue (Copied p db) _ _
        (copy_content-SameNodes p.old (record db { ticks = db.ticks + 1 }))
        (λ generation db1 same.
          Ends-continue (Copied p db) _ _ (insert_node-Ends db1 _) (λ _ db2 added. ends (record {
            new = host.uuid db.ticks;
            generation = generation;
            is_row = refl;
            is_added =
                ap (λ d. d.nodes) added
                ∙ ap
                    (λ rows.
                      rows
                      ++ active (
                          copied_row p.old (host.uuid db.ticks) ws p.parent_id p.new_name generation
                            now)
                        ∷ [])
                    same;
          })))

  Ends-round :
      {A : Type 0} {Q : RawNode → Db → Type 0} (P : A → Db → Type 0) (r : Ran RawNode)
      → (f : RawNode → Db → Ran A) → Ends Q r
      → ((c : RawNode) (db : Db) → Q c db → Ends P (f c db))
      → Ends P (elim r [
        | done new_node db' ↦ f new_node db'
        | failed e t ↦ failed e t
        | diverged ↦ diverged
        | panicked ↦ panicked
      ])
  Ends-round P _ f (ends {a} {db} h) kf = kf a db h
  Ends-round P _ f fails kf = fails
  Ends-round P _ f runs_on kf = runs_on
  Ends-round P _ f panics kf = panics

  -- the first copy comes back, and rows are only added
  record Went (top : RawNode) (db : Db) (row : RawNode) (db' : Db) : Type 0 where
    below : List NodeRow
    is_top : row ≡ top
    is_longer : db'.nodes ≡ db.nodes ++ below

  copy_loop-Went :
      (rounds : ℕ) (stack : List Pending) (top : RawNode) (db : Db)
      → Ends (Went top db) (copy_loop host ws now rounds stack (some top) db)
  unfolding copy_loop copied_top first_of_two
  copy_loop-Went zero [] top db =
      ends (record { below = []; is_top = refl; is_longer = sym (append-nil db.nodes) })
  copy_loop-Went (suc rounds) [] top db =
      ends (record { below = []; is_top = refl; is_longer = sym (append-nil db.nodes) })
  copy_loop-Went zero (p ∷ stack) top db = runs_on
  copy_loop-Went (suc rounds) (p ∷ stack) top db =
      Ends-round (Went top db) _ _ (copy_one-Copied p db) (λ c db1 copied.
        longer db1 (active c ∷ []) copied.is_added _
          (copy_loop-Went rounds (push_children host ws now db1 p c stack) top db1))
    where
      longer :
          (db1 : Db) (rows : List NodeRow)
          → db1.nodes ≡ db.nodes ++ rows
          → (r : Ran RawNode) → Ends (Went top db1) r
          → Ends (Went top db) r
      longer db1 rows e _ (ends w) = ends (record {
        below = rows ++ w.below;
        is_top = w.is_top;
        is_longer = w.is_longer ∙ ap (λ t. t ++ w.below) e ∙ append_assoc db.nodes rows w.below;
      })
      longer db1 rows e _ fails = fails
      longer db1 rows e _ runs_on = runs_on
      longer db1 rows e _ panics = panics

  -- the source's row as it is then, its copy, and rows behind it
  record Grown (source : RawNode) (parent_id : ℕ) (dest_name : Text) (db : Db) (row : RawNode)
      (db' : Db) : Type 0 where
    full : RawNode
    new : ℕ
    generation : Option ℕ
    below : List NodeRow
    is_full : fetch_by_id db ws source.id ≡ some full
    is_row : row ≡ copied_row full new ws parent_id dest_name generation now
    is_longer : db'.nodes ≡ (db.nodes ++ active row ∷ []) ++ below

  Went-Grown :
      (source full : RawNode) (parent_id : ℕ) (dest_name : Text) (db : Db)
      → fetch_by_id db ws source.id ≡ some full
      → (c : RawNode) (db1 : Db)
      → Copied (record { old = full; parent_id = parent_id; new_name = dest_name }) db c db1
      → (r : Ran RawNode) → Ends (Went c db1) r
      → Ends (Grown source parent_id dest_name db) r
  Went-Grown source full parent_id dest_name db e c db1 copied _ (ends {a} w) = ends (record {
    full = full;
    new = copied.new;
    generation = copied.generation;
    below = w.below;
    is_full = e;
    is_row = w.is_top ∙ copied.is_row;
    is_longer =
        w.is_longer
        ∙ ap (λ t. t ++ w.below) copied.is_added
        ∙ ap (λ n. (db.nodes ++ active n ∷ []) ++ w.below) (sym w.is_top);
  })
  Went-Grown source full parent_id dest_name db e c db1 copied _ fails = fails
  Went-Grown source full parent_id dest_name db e c db1 copied _ runs_on = runs_on
  Went-Grown source full parent_id dest_name db e c db1 copied _ panics = panics

  copy_loop-Grown :
      (rounds : ℕ) (source full : RawNode) (parent_id : ℕ) (dest_name : Text) (db : Db)
      → fetch_by_id db ws source.id ≡ some full
      → Ends (Grown source parent_id dest_name db) (
          copy_loop host ws now rounds
            ((record { old = full; parent_id = parent_id; new_name = dest_name }) ∷ [])
            none
            db)
  unfolding copy_loop first_of_two
  copy_loop-Grown zero source full parent_id dest_name db e = runs_on
  copy_loop-Grown (suc rounds) source full parent_id dest_name db e =
      Ends-round (Grown source parent_id dest_name db) _ _ (copy_one-Copied _ db) (λ c db1 copied.
        Went-Grown source full parent_id dest_name db e c db1 copied _
          (copy_loop-Went rounds _ c db1))

  copy_subtree-Grown :
      (source : RawNode) (parent_id : ℕ) (dest_name : Text) (db : Db)
      → Ends
          (Grown source parent_id dest_name db)
          (copy_subtree host ws now source parent_id dest_name db)
  unfolding copy_subtree fetch_full
  copy_subtree-Grown source parent_id dest_name db =
      elim (Option-cases (fetch_by_id db ws source.id)) [
        | inl e ↦ rw (copy_subtree, fetch_full, e) fails
        | inr (full, e) ↦
            rw (copy_subtree, fetch_full, e)
              (copy_loop-Grown host.rounds source full parent_id dest_name db e)
      ]

module _ (host : Host) (ws : ℕ) (from to : VirtualPath) (options : CopyOptions) (actor : Text)
    (db : Db) where
  abbrev IsDone : CopyOutcome → Db → Type 0
  IsDone = Settled is_created (IsCopy db ws from to options) db

  idle : (out : CopyOutcome) → is_created out ≡ false → Ends IsDone (done out db)
  idle = declines is_created (IsCopy db ws from to options) db

  module _ (source : RawNode) (is_source : resolve_following db ws from false ≡ found source)
      (is_expected : conflicts options.expected_revision source ≡ false)
      (is_file_or_recursive : (source.kind == directory_kind && not options.recursive)
        ≡ false) where
    copy_apply-Ends :
        (p : ℕ) (existing : Option RawNode) (n : Text) (mid : Db)
        → resolve_destination db ws to ≡ ready p existing n
        → (is_none existing || options.overwrite) ≡ true
        → Cleared db existing mid
        → Ends IsDone (copy_apply host ws from to options actor source p n mid)
    unfolding copy_apply now_ms fetch_by_id fetch_active
    copy_apply-Ends p existing n mid d o c =
        Ends-continue IsDone _ _
          (copy_subtree-Grown host ws (host.clock mid.ticks) source p n
            (record mid { ticks = mid.ticks + 1 }))
          (λ row db1 grown.
            Ends-continue IsDone _ _ (append_change-Logged db1 ws _ actor _) (λ _ db2 logged. ends (
              inl (record {
                source = source;
                parent_id = p;
                existing = existing;
                dest_name = n;
                cleared = mid;
                full = grown.full;
                new = grown.new;
                generation = grown.generation;
                now = host.clock mid.ticks;
                below = grown.below;
                is_source = is_source;
                is_expected = is_expected;
                is_file_or_recursive = is_file_or_recursive;
                is_destination = d;
                is_allowed = o;
                is_cleared = c;
                is_full = grown.is_full;
                is_reported = ap created grown.is_row;
                is_inserted =
                    ap (λ d. d.nodes) logged.is_logged
                    ∙ grown.is_longer
                    ∙ ap (λ r. (mid.nodes ++ active r ∷ []) ++ grown.below) grown.is_row;
              }))))

    copy_into-Ends :
        (dest : Destination)
        → resolve_destination db ws to ≡ dest
        → Ends IsDone (copy_into host ws from to options actor source dest db)
    unfolding copy_into copy_onto
    copy_into-Ends is_root d = idle _ refl
    copy_into-Ends parent_not_found d = idle _ refl
    copy_into-Ends parent_not_directory d = idle _ refl
    copy_into-Ends no_parent d = panics
    copy_into-Ends (ready p none n) d = copy_apply-Ends p none n db d refl refl
    copy_into-Ends (ready p (some e) n) d =
        Ends-if IsDone (not options.overwrite) _ _ (λ _. idle _ refl)
          (λ o.
            Ends-continue IsDone _ _ (purge_subtree-Purged host e.id db)
              (λ _ mid c. copy_apply-Ends p (some e) n mid d (not-false options.overwrite o) c))
      where
        not-false : (b : Bool) → not b ≡ false → b ≡ true
        not-false b h = ground arith

  copy_source-Ends :
      (out : ResolveOutcome)
      → resolve_following db ws from false ≡ out
      → Ends IsDone (copy_source host ws from to options actor out db)
  unfolding copy_source
  copy_source-Ends not_found e = idle _ refl
  copy_source-Ends broken_link e = idle _ refl
  copy_source-Ends link_loop e = idle _ refl
  copy_source-Ends (found source) e =
      Ends-if IsDone _ _ _ (λ _. idle _ refl)
        (λ c.
          Ends-if IsDone _ _ _ (λ _. idle _ refl)
            (λ r. copy_into-Ends source e c r (resolve_destination db ws to) refl))

  -- A copy that ends either reports that it did nothing and left every table as it was, or it
  -- cleared away what stood at the place that `to` names and added a row that has the parent and
  -- the name of the place, the revision 1, and, but for id, times and generation of the content,
  -- is as the row of the node that `from` names, of the expected revision; the other rows are as
  -- they were, but for new ones, and the new row is reported.
  pub copy_tx-settles :
      (db' : Db) (out : CopyOutcome)
      → copy_tx host ws from to options actor db ≡ done out db'
      → IsCopy db ws from to options out db' ⊎ ((is_created out ≡ false) × (db' ≡ db))
  unfolding copy_tx
  copy_tx-settles db' out h =
      Ends-done IsDone db db' out _ (copy_source-Ends (resolve_following db ws from false) refl) h
