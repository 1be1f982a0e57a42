-- ===== src/Content/Written.antt =====
-- `write` of crates/fslite-sqlite/src/content.rs on a file that exists, and reading it back.
use fslite.Common.{
  ℕ, suc, ◌+◌, ◌≡◌, refl, ap, ◌∙◌, true, false, not, Option, none, some, ◌∷◌, Text, length, ◌==◌,
}
use fslite.Path.{VirtualPath}
use fslite.Schema.{RawNode, Db, ChangeKind, file_kind}
use fslite.Sql.{continue, pure, ◌>>◌, done, Host, any_by, keep_by, set_where, now_ms, update_node}
use fslite.Purge.{delete_generation, is_referenced}
use fslite.Change.{bump_seq, change_row}
use fslite.Feed.{FeedIsDense, append_change-next, seq_of}
use package.fslite.Content.{finalize_generation, complete_where}
use package.fslite.Content.Touch.{applied, finalize_update, delete_old}
use package.fslite.Content.Switched.{switched_node, switch_row}

-- the row as `finalize_tx` gives it back
abbrev pub applied_row : ℕ → ℕ → ℕ → ℕ → RawNode → RawNode
applied_row ws generation length now node = record node {
  workspace_id = ws;
  kind = file_kind;
  size = length;
  revision = node.revision + 1;
  modified_at_ms = now;
  accessed_at_ms = now;
  content_generation_id = some generation;
  symlink_target = none;
}

module _ (host : Host) (ws : ℕ) (path : VirtualPath) (actor : Text) where
  abbrev pub switched_db : Db → RawNode → ℕ → ℕ → Db
  switched_db db node generation length = record db {
    nodes =
        set_where node.id
          (switch_row node.id
            (switched_node generation length (node.revision + 1) (host.clock db.ticks)))
          db.nodes;
    ticks = db.ticks + 1;
  }

  -- after the change is appended
  abbrev noted_db : Db → RawNode → ℕ → ℕ → Db
  noted_db db node generation length = record (switched_db db node generation length) {
    generations = complete_where generation length db.generations;
    workspaces = bump_seq ws (host.clock db.ticks) db.workspaces;
    changes =
        change_row ws (suc (seq_of ws db.workspaces))
          (record {
            kind = ChangeKind.modified;
            node_id = some node.id;
            old_path = none;
            new_path = some path.canonical;
            revision = some (node.revision + 1);
          })
          actor (host.clock db.ticks)
        ∷ db.changes;
  }

  abbrev pub written_db : Db → RawNode → ℕ → ℕ → ℕ → Db
  written_db db node old generation length = record (noted_db db node generation length) {
    generations = keep_by (λ x. not (x.id == old)) (noted_db db node generation length).generations;
    chunks = keep_by (λ c. not (c.generation_id == old)) db.chunks;
  }

  delete_old-done :
      (db : Db) (old generation : ℕ) (o : Option ℕ)
      → o ≡ some old
      → (old == generation) ≡ false
      → is_referenced db old ≡ false
      → delete_old o generation db
        ≡ done tt (record db {
          generations = keep_by (λ x. not (x.id == old)) db.generations;
          chunks = keep_by (λ c. not (c.generation_id == old)) db.chunks;
        })
  unfolding delete_old delete_generation
  delete_old-done db old generation o e other free =
      rw (e, delete_old, other, delete_generation, free) refl

  pub finalize_update-done :
      (db : Db) (node : RawNode) (old generation length : ℕ)
      → FeedIsDense db
      → any_by (λ w. w.id == ws) db.workspaces ≡ true
      → node.content_generation_id ≡ some old
      → (old == generation) ≡ false
      → is_referenced (switched_db db node generation length) old ≡ false
      → finalize_update host ws path actor node generation length db
        ≡ done
            (applied (applied_row ws generation length (host.clock db.ticks) node))
            (written_db db node old generation length)
  unfolding finalize_update now_ms update_node finalize_generation FeedIsDense is_referenced
  finalize_update-done db node old generation length dense exists e other free =
      ap
        (λ r. continue r (λ _.
          delete_old node.content_generation_id generation
          >> pure (applied (applied_row ws generation length (host.clock db.ticks) node))))
        (append_change-next
          (record (switched_db db node generation length) {
            generations = complete_where generation length db.generations;
          })
          ws _ actor (host.clock db.ticks) dense exists)
      ∙ ap
          (λ r.
            continue r
              (λ _. pure (applied (applied_row ws generation length (host.clock db.ticks) node))))
          (delete_old-done (noted_db db node generation length) old generation
            node.content_generation_id e other free)
