-- ===== src/Refusal/Trashing.antt =====
-- `trash_tx` of crates/fslite-sqlite/src/trash.rs.
use fslite.Common.{
  ℕ, ◌+◌, ◌≡◌, refl, ap, ◌∙◌, Bool, true, false, Option, none, some, [], ◌∷◌, ◌++◌, Text, inl, ◌⊎◌,
}
use fslite.Path.{VirtualPath, name}
use fslite.Schema.{RawNode, Db}
use fslite.Sql.{Host, done, is_none, set_where, new_id, now_ms, update_node}
use fslite.Resolve.{ResolveOutcome, found, not_found, broken_link, link_loop, resolve_following}
use fslite.Mutate.{conflicts}
use fslite.Trash.{TrashOutcome, trashed, mark_trashed, trash_apply, trash_node, trash_tx}
use package.fslite.Refusal.{
  Ends, ends, panics, Ends-continue, Ends-done, Ends-if, Settled, declines,
}
use package.fslite.Refusal.Statements.{append_change-Logged, insert_trash-Ends}

abbrev pub is_trashed : TrashOutcome → Bool
is_trashed (trashed trash_id node now) = true
is_trashed _ = false

-- A trashing that was done: of the node that the path names, of the expected revision. Its row is
-- marked with the time and the other rows are as they were; the trash has one more entry, with the
-- node, its parent and its name; and the id of the entry, the row as it was and the time are
-- reported.
pub record IsTrashing (db : Db) (ws : ℕ) (path : VirtualPath) (expected : Option ℕ)
    (out : TrashOutcome) (db' : Db) : Type 0 where
  pub node : RawNode
  pub parent_id : ℕ
  pub trash_id : ℕ
  pub now : ℕ
  pub is_node : resolve_following db ws path false ≡ found node
  pub is_expected : conflicts expected node ≡ false
  pub has_parent : node.parent_id ≡ some parent_id
  pub is_reported : out ≡ trashed trash_id node now
  pub is_marked :
      db'.nodes ≡ set_where node.id (λ r. record r { trashed_at_ms = some now }) db.nodes
  pub is_entered :
      db'.trash
      ≡ db.trash
        ++ (record {
          id = trash_id;
          workspace_id = ws;
          node_id = node.id;
          original_parent_id = parent_id;
          original_name = node.name;
          deleted_at_ms = now;
        })
          ∷ []

module _ (host : Host) (ws : ℕ) (actor : Text) (path : VirtualPath) (expected : Option ℕ)
    (db : Db) where
  abbrev IsDone : TrashOutcome → Db → Type 0
  IsDone = Settled is_trashed (IsTrashing db ws path expected) db

  idle : (out : TrashOutcome) → is_trashed out ≡ false → Ends IsDone (done out db)
  idle = declines is_trashed (IsTrashing db ws path expected) db

  trash_apply-Ends :
      (node : RawNode) (parent_id : Option ℕ)
      → node.parent_id ≡ parent_id
      → resolve_following db ws path false ≡ found node
      → conflicts expected node ≡ false
      → Ends IsDone (trash_apply host ws actor path node parent_id db)
  unfolding trash_apply new_id now_ms update_node
  trash_apply-Ends node none p e c = panics
  trash_apply-Ends node (some parent_id) p e c =
      Ends-continue IsDone _ _ (insert_trash-Ends (record db { ticks = db.ticks + 1 + 1 }) _)
        (λ _ db1 entered.
          Ends-continue IsDone _ _
            (append_change-Logged
              (record db1 {
                nodes = set_where node.id (mark_trashed (host.clock (db.ticks + 1))) db1.nodes;
              })
              ws _ actor _)
            (λ _ db2 logged. ends (
              inl (record {
                node = node;
                parent_id = parent_id;
                trash_id = host.uuid db.ticks;
                now = host.clock (db.ticks + 1);
                is_node = e;
                is_expected = c;
                has_parent = p;
                is_reported = refl;
                is_marked =
                    ap (λ d. d.nodes) logged.is_logged
                    ∙ ap (λ d. set_where node.id (mark_trashed (host.clock (db.ticks + 1))) d.nodes)
                        entered;
                is_entered = ap (λ d. d.trash) logged.is_logged ∙ ap (λ d. d.trash) entered;
              }))))

  trash_node-Ends :
      (out : ResolveOutcome)
      → resolve_following db ws path false ≡ out
      → Ends IsDone (trash_node host ws actor path expected out db)
  unfolding trash_node
  trash_node-Ends not_found e = idle _ refl
  trash_node-Ends broken_link e = idle _ refl
  trash_node-Ends link_loop e = idle _ refl
  trash_node-Ends (found node) e =
      Ends-if IsDone _ _ _ (λ _. idle _ refl) (λ c. trash_apply-Ends node node.parent_id refl e c)

  -- A trashing that ends either reports that it did nothing and left every table as it was, or the
  -- node that the path names, of the expected revision, is marked as trashed, no other row is
  -- changed, and the trash has one more entry, that of the node with its parent and name.
  pub trash_tx-settles :
      (db' : Db) (out : TrashOutcome)
      → trash_tx host ws actor path expected db ≡ done out db'
      → IsTrashing db ws path expected out db' ⊎ ((is_trashed out ≡ false) × (db' ≡ db))
  unfolding trash_tx
  trash_tx-settles db' out h =
      Ends-done IsDone db db' out _
        (Ends-if IsDone (is_none (name path)) _ _ (λ _. idle _ refl)
          (λ _. trash_node-Ends (resolve_following db ws path false) refl))
        h
