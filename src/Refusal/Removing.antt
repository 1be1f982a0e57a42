-- ===== src/Refusal/Removing.antt =====
-- `remove_tx` of crates/fslite-sqlite/src/mutate.rs.
use fslite.Common.{ℕ, ◌+◌, ◌≡◌, refl, ap, ◌∙◌, Bool, true, false, not, ◌&&◌, ◌==◌, Text, inl, ◌⊎◌}
use fslite.Path.{VirtualPath, name}
use fslite.Schema.{RawNode, Db, directory_kind}
use fslite.Sql.{Host, done, is_none, keep_by, now_ms}
use fslite.Purge.{is_gone, is_gone_id}
use fslite.Resolve.{
  ResolveOutcome, found, not_found, broken_link, link_loop, resolve_following, has_active_children,
}
use fslite.Mutate.{conflicts}
use fslite.Mutate.Remove.{
  RemoveOptions, RemoveOutcome, removed, remove_apply, remove_node, remove_tx,
}
use package.fslite.Refusal.{Ends, ends, Ends-continue, Ends-done, Ends-if, Settled, declines}
use package.fslite.Refusal.Statements.{append_change-Logged}
use package.fslite.Refusal.Purging.{purge_subtree-Purged}

abbrev pub is_removed : RemoveOutcome → Bool
is_removed removed = true
is_removed _ = false

-- A removal that was made: of the node that the path names, of the expected revision, which had no
-- active children unless the removal is recursive. Its row and the rows below it are gone, with
-- their attributes and trash entries, and the other ones are as they were.
pub record IsRemoval (db : Db) (ws : ℕ) (path : VirtualPath) (options : RemoveOptions) (db' : Db)
    : Type 0 where
  pub node : RawNode
  pub is_node : resolve_following db ws path false ≡ found node
  pub is_expected : conflicts options.expected_revision node ≡ false
  pub is_empty_or_recursive :
      (node.kind == directory_kind && not options.recursive && has_active_children db ws node.id)
      ≡ false
  pub are_nodes : db'.nodes ≡ keep_by (λ r. not (is_gone db.nodes node.id r)) db.nodes
  pub are_attributes :
      db'.attributes ≡ keep_by (λ a. not (is_gone_id db.nodes node.id a.node_id)) db.attributes
  pub is_trash : db'.trash ≡ keep_by (λ t. not (is_gone_id db.nodes node.id t.node_id)) db.trash

module _ (host : Host) (ws : ℕ) (path : VirtualPath) (options : RemoveOptions) (actor : Text)
    (db : Db) where
  abbrev IsDone : RemoveOutcome → Db → Type 0
  IsDone = Settled is_removed (λ _. IsRemoval db ws path options) db

  idle : (out : RemoveOutcome) → is_removed out ≡ false → Ends IsDone (done out db)
  idle = declines is_removed (λ _. IsRemoval db ws path options) db

  remove_apply-Ends :
      (node : RawNode)
      → resolve_following db ws path false ≡ found node
      → conflicts options.expected_revision node ≡ false
      → (node.kind == directory_kind && not options.recursive && has_active_children db ws node.id)
        ≡ false
      → Ends IsDone (remove_apply host ws path options actor node db)
  unfolding remove_apply now_ms
  remove_apply-Ends node e c o =
      Ends-continue IsDone _ _ (purge_subtree-Purged host node.id db) (λ _ mid gone.
        Ends-continue IsDone _ _
          (append_change-Logged (record mid { ticks = mid.ticks + 1 }) ws _ actor _)
          (λ _ db2 logged. ends (
            inl (record {
              node = node;
              is_node = e;
              is_expected = c;
              is_empty_or_recursive = o;
              are_nodes = ap (λ d. d.nodes) logged.is_logged ∙ ap (λ d. d.nodes) gone.is_purged;
              are_attributes =
                  ap (λ d. d.attributes) logged.is_logged ∙ ap (λ d. d.attributes) gone.is_purged;
              is_trash = ap (λ d. d.trash) logged.is_logged ∙ ap (λ d. d.trash) gone.is_purged;
            }))))

  remove_node-Ends :
      (out : ResolveOutcome)
      → resolve_following db ws path false ≡ out
      → Ends IsDone (remove_node host ws path options actor out db)
  unfolding remove_node
  remove_node-Ends not_found e = idle _ refl
  remove_node-Ends broken_link e = idle _ refl
  remove_node-Ends link_loop e = idle _ refl
  remove_node-Ends (found node) e =
      Ends-if IsDone _ _ _ (λ _. idle _ refl)
        (λ c. Ends-if IsDone _ _ _ (λ _. idle _ refl) (λ o. remove_apply-Ends node e c o))

  -- A removal that ends either reports that it did nothing and left every table as it was, or the
  -- node that the path names, of the expected revision and with no active children unless the
  -- removal is recursive, is gone, with exactly the rows below it and their attributes and trash
  -- entries.
  pub remove_tx-settles :
      (db' : Db) (out : RemoveOutcome)
      → remove_tx host ws path options actor db ≡ done out db'
      → IsRemoval db ws path options db' ⊎ ((is_removed out ≡ false) × (db' ≡ db))
  unfolding remove_tx
  remove_tx-settles db' out h =
      Ends-done IsDone db db' out _
        (Ends-if IsDone (is_none (name path)) _ _ (λ _. idle _ refl)
          (λ _. remove_node-Ends (resolve_following db ws path false) refl))
        h
