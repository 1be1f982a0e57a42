-- ===== src/Change.antt =====
-- `append` of crates/fslite-sqlite/src/change.rs.
use fslite.Common.{ℕ, ◌+◌, ◌&&◌, Option, none, some, List, [], ◌∷◌, Text, ◌==◌, if◌then◌else◌}
use fslite.Schema.{WorkspaceRow, ChangeKind, ChangeRow, Db}
use fslite.Sql.{constraint_violation, query_returned_no_rows, done, failed, Sql, find_by, any_by}

unfoldable pub bump_seq : ℕ → ℕ → List WorkspaceRow → List WorkspaceRow
bump_seq ws now [] = []
bump_seq ws now (w ∷ rows) =
    (if w.id == ws then record w { change_seq = w.change_seq + 1; updated_at_ms = now } else w)
    ∷ bump_seq ws now rows

unfoldable pub insert_change : ChangeRow → Sql (Unit {0})
insert_change c db =
    if any_by (λ d. d.workspace_id == c.workspace_id && d.sequence == c.sequence) db.changes
    then failed constraint_violation db.ticks
    else done tt (record db { changes = c ∷ db.changes })

-- What `append` is told of a change.
pub record Note : Type 0 where
  pub kind : ChangeKind
  pub node_id : Option ℕ
  pub old_path : Option Text
  pub new_path : Option Text
  pub revision : Option ℕ

abbrev pub change_row : ℕ → ℕ → Note → Text → ℕ → ChangeRow
change_row ws sequence note actor_json now = record {
  workspace_id = ws;
  sequence = sequence;
  kind = note.kind;
  node_id = note.node_id;
  old_path = note.old_path;
  new_path = note.new_path;
  revision = note.revision;
  created_at_ms = now;
  actor_json = actor_json;
}

-- `append` of crates/fslite-sqlite/src/change.rs. The table is listed with the newest row first.
unfoldable pub append_change : ℕ → Note → Text → ℕ → Sql (Unit {0})
unfolding bump_seq insert_change
append_change ws note actor_json now db =
    let rows = bump_seq ws now db.workspaces in
    let bumped : Db = record db { workspaces = rows } in
    elim (find_by (λ w. w.id == ws) rows) [
      | none ↦ failed query_returned_no_rows db.ticks
      | some w ↦ insert_change (change_row ws w.change_seq note actor_json now) bumped
    ]
