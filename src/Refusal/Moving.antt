-- ===== src/Refusal/Moving.antt =====
-- `move_tx` of crates/fslite-sqlite/src/mutate.rs.
use fslite.Common.{
  ℕ, ◌+◌, ◌≡◌, refl, ap, ◌∙◌, Bool, true, false, ◌||◌, Option, none, some, Text, inl, ◌⊎◌,
}
use fslite.Path.{VirtualPath, is_same_or_descendant, name}
use fslite.Schema.{RawNode, NodeRow, Db}
use fslite.Sql.{Host, done, is_none, set_where, now_ms}
use fslite.Resolve.{ResolveOutcome, found, not_found, broken_link, link_loop, resolve_following}
use fslite.Mutate.{
  conflicts, Destination, ready, is_root, parent_not_found, parent_not_directory, no_parent,
  resolve_destination,
}
use fslite.Mutate.Move.{
  MoveOptions, MoveOutcome, moved_to, move_apply, move_onto, move_into, move_source, move_tx,
}
use package.fslite.Refusal.{
  Ends, ends, panics, Ends-continue, Ends-done, Ends-if, Ends-choose, Settled, declines,
}
use package.fslite.Refusal.Statements.{append_change-Logged, relocate_node-Ends}
use package.fslite.Refusal.Purging.{Cleared, purge_subtree-Purged}

abbrev pub is_moved_to : MoveOutcome → Bool
is_moved_to (moved_to row) = true
is_moved_to _ = false

-- a row at its new place, and nothing else of it changed but the revision and the time
abbrev pub placed : ℕ → Text → ℕ → ℕ → NodeRow → NodeRow
placed parent_id dest_name revision now r = record r {
  node = record r.node {
    parent_id = some parent_id;
    name = dest_name;
    revision = revision;
    modified_at_ms = now;
  };
}

-- A move that was made: the source is what `from` names, of the revision that the caller expects,
-- and `to` is not below `from`. What stands at the destination is cleared away, which takes the
-- option, and then the source's row, if it is still there, has the parent and the name of the
-- destination and the next revision, and every other row is as it was. The source as it is now is
-- reported.
pub record IsMove (db : Db) (ws : ℕ) (from to : VirtualPath) (options : MoveOptions)
    (out : MoveOutcome) (db' : Db) : Type 0 where
  pub source : RawNode
  pub parent_id : ℕ
  pub existing : Option RawNode
  pub dest_name : Text
  pub now : ℕ
  pub cleared : Db
  pub is_source : resolve_following db ws from false ≡ found source
  pub is_expected : conflicts options.expected_revision source ≡ false
  pub is_outside : is_same_or_descendant from to ≡ false
  pub is_destination : resolve_destination db ws to ≡ ready parent_id existing dest_name
  pub is_allowed : (is_none existing || options.overwrite) ≡ true
  pub is_cleared : Cleared db existing cleared
  pub is_reported :
      out
      ≡ moved_to (record source {
        workspace_id = ws;
        parent_id = some parent_id;
        name = dest_name;
        revision = source.revision + 1;
        modified_at_ms = now;
      })
  pub is_placed :
      db'.nodes
      ≡ set_where source.id (placed parent_id dest_name (source.revision + 1) now) cleared.nodes

module _ (host : Host) (ws : ℕ) (from to : VirtualPath) (options : MoveOptions) (actor : Text)
    (db : Db) where
  abbrev IsDone : MoveOutcome → Db → Type 0
  IsDone = Settled is_moved_to (IsMove db ws from to options) db

  idle : (out : MoveOutcome) → is_moved_to out ≡ false → Ends IsDone (done out db)
  idle = declines is_moved_to (IsMove db ws from to options) db

  module _ (source : RawNode) (is_source : resolve_following db ws from false ≡ found source)
      (is_expected : conflicts options.expected_revision source ≡ false)
      (is_outside : is_same_or_descendant from to ≡ false) where
    move_apply-Ends :
        (p : ℕ) (existing : Option RawNode) (n : Text) (mid : Db)
        → resolve_destination db ws to ≡ ready p existing n
        → (is_none existing || options.overwrite) ≡ true
        → Cleared db existing mid
        → Ends IsDone (move_apply host ws from to options actor source p n mid)
    unfolding move_apply now_ms
    move_apply-Ends p existing n mid d o c =
        Ends-continue IsDone _ _
          (relocate_node-Ends (record mid { ticks = mid.ticks + 1 }) source.id _)
          (λ _ db1 moved.
            Ends-continue IsDone _ _ (append_change-Logged db1 ws _ actor _) (λ _ db2 logged. ends (
              inl (record {
                source = source;
                parent_id = p;
                existing = existing;
                dest_name = n;
                now = host.clock mid.ticks;
                cleared = mid;
                is_source = is_source;
                is_expected = is_expected;
                is_outside = is_outside;
                is_destination = d;
                is_allowed = o;
                is_cleared = c;
                is_reported = refl;
                is_placed = ap (λ d. d.nodes) logged.is_logged ∙ ap (λ d. d.nodes) moved;
              }))))

    move_into-Ends :
        (dest : Destination)
        → resolve_destination db ws to ≡ dest
        → Ends IsDone (move_into host ws from to options actor source dest db)
    unfolding move_into move_onto
    move_into-Ends is_root d = idle _ refl
    move_into-Ends parent_not_found d = idle _ refl
    move_into-Ends parent_not_directory d = idle _ refl
    move_into-Ends no_parent d = panics
    move_into-Ends (ready p none n) d = move_apply-Ends p none n db d refl refl
    move_into-Ends (ready p (some e) n) d =
        Ends-choose IsDone options.overwrite _ _ db
          (λ o.
            Ends-continue IsDone _ _ (purge_subtree-Purged host e.id db)
              (λ _ mid c. move_apply-Ends p (some e) n mid d o c))
          (λ _. idle _ refl)

  move_source-Ends :
      (out : ResolveOutcome)
      → resolve_following db ws from false ≡ out
      → Ends IsDone (move_source host ws from to options actor out db)
  unfolding move_source
  move_source-Ends not_found e = idle _ refl
  move_source-Ends broken_link e = idle _ refl
  move_source-Ends link_loop e = idle _ refl
  move_source-Ends (found source) e =
      Ends-if IsDone _ _ _ (λ _. idle _ refl)
        (λ c.
          Ends-if IsDone _ _ _ (λ _. idle _ refl)
            (λ o. move_into-Ends source e c o (resolve_destination db ws to) refl))

  -- A move that ends either reports that it did nothing and left every table as it was, or it
  -- cleared away what stood at the place that `to` names, outside of `from`, and gave the row of
  -- the node that `from` names, of the expected revision, if it is not gone with that, the parent
  -- and the name of the place and the next revision, changed no other row, and reports the node so.
  pub move_tx-settles :
      (db' : Db) (out : MoveOutcome)
      → move_tx host ws from to options actor db ≡ done out db'
      → IsMove db ws from to options out db' ⊎ ((is_moved_to out ≡ false) × (db' ≡ db))
  unfolding move_tx
  move_tx-settles db' out h =
      Ends-done IsDone db db' out _
        (Ends-if IsDone (is_none (name from)) _ _ (λ _. idle _ refl)
          (λ _. move_source-Ends (resolve_following db ws from false) refl))
        h
