-- ===== src/Refusal/Statements.antt =====
-- What the statements of a transaction leave, if they end.
use fslite.Common.{
  ℕ, ◌≡◌, refl, List, [], ◌∷◌, ◌++◌, Text, inl, inr, Bool-cases, Option-cases, ◌==◌, ◌&&◌,
}
use fslite.Schema.{RawNode, NodeRow, TrashRow, WorkspaceRow, Db}
use fslite.Sql.{
  relocate_node, relocation_ok, set_where, insert_node, insert_ok, inserted, find_by, any_by,
}
use fslite.Change.{Note, change_row, append_change, bump_seq, insert_change}
use fslite.Trash.{insert_trash, trash_ok}
use package.fslite.Refusal.{Ends, ends, fails}

-- The tables with one more change, as noted, in front of the feed; and the workspaces as they may
-- be.
pub record Logged (db : Db) (ws : ℕ) (note : Note) (actor : Text) (now : ℕ) (db' : Db)
    : Type 0 where
  pub sequence : ℕ
  pub rows : List WorkspaceRow
  pub is_logged : db' ≡ record db {
    workspaces = rows;
    changes = change_row ws sequence note actor now ∷ db.changes;
  }

pub append_change-Logged :
    (db : Db) (ws : ℕ) (note : Note) (actor : Text) (now : ℕ)
    → Ends (λ _. Logged db ws note actor now) (append_change ws note actor now db)
unfolding append_change insert_change
append_change-Logged db ws note actor now =
    elim (Option-cases (find_by (λ w. w.id == ws) (bump_seq ws now db.workspaces))) [
      | inl e ↦ rw (append_change, e) fails
      | inr (w, e) ↦
          elim (Bool-cases
            (any_by (λ d. d.workspace_id == ws && d.sequence == w.change_seq) db.changes)) [
              | inl k ↦ rw (append_change, e, insert_change, k) fails
              | inr k ↦
                  rw (append_change, e, insert_change, k)
                    (ends (record {
                      sequence = w.change_seq;
                      rows = bump_seq ws now db.workspaces;
                      is_logged = refl;
                    }))
            ]
    ]

pub relocate_node-Ends :
    (db : Db) (i : ℕ) (f : NodeRow → NodeRow)
    → Ends (λ _ db'. db' ≡ record db { nodes = set_where i f db.nodes }) (relocate_node i f db)
unfolding relocate_node
relocate_node-Ends db i f = elim (Bool-cases (relocation_ok db i f)) [
  | inl e ↦ rw (relocate_node, e) (ends refl)
  | inr e ↦ rw (relocate_node, e) fails
]

pub insert_trash-Ends :
    (db : Db) (t : TrashRow)
    → Ends (λ _ db'. db' ≡ record db { trash = db.trash ++ t ∷ [] }) (insert_trash t db)
unfolding insert_trash
insert_trash-Ends db t = elim (Bool-cases (trash_ok db t)) [
  | inl e ↦ rw (insert_trash, e) (ends refl)
  | inr e ↦ rw (insert_trash, e) fails
]

pub insert_node-Ends :
    (db : Db) (n : RawNode) → Ends (λ _ db'. db' ≡ inserted db n) (insert_node n db)
unfolding insert_node
insert_node-Ends db n = elim (Bool-cases (insert_ok db n)) [
  | inl e ↦ rw (insert_node, e) (ends refl)
  | inr e ↦ rw (insert_node, e) fails
]
