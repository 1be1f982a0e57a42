-- ===== src/Feed.antt =====
-- The change feed of a workspace (crates/fslite-sqlite/src/change.rs): the sequence numbers of its
-- rows.
pub mod Operations
use fslite.Common.{
  subst, ℕ, zero, suc, ◌+◌, ◌≡◌, refl, sym, ap, ◌∙◌, Bool, true, false, not, ◌&&◌, ◌||◌, Option,
  none, some, List, [], ◌∷◌, Text, ◌==◌, ltb, leb, if◌then◌else◌, inl, inr, Bool-cases,
  Option-cases, ==_refl, ==_eq, arith,
}
use fslite.Schema.{NodeRow, WorkspaceRow, ChangeRow, Db}
use fslite.Sql.{Ran, done, failed, find_by, any_by}
use fslite.Change.{Note, change_row, append_change, bump_seq, insert_change}
use fslite.Keeps.{Holds, ends, fails, Keeps, Holds-if}

-- the sequence numbers of a workspace's rows, in the order of the rows
unfoldable pub sequences : ℕ → List ChangeRow → List ℕ
sequences ws [] = []
sequences ws (c ∷ rows) =
    let rest = sequences ws rows in if c.workspace_id == ws then c.sequence ∷ rest else rest

-- n, n − 1, …, 1
unfoldable pub countdown : ℕ → List ℕ
countdown zero = []
countdown (suc n) = suc n ∷ countdown n

-- `change_seq` of the workspace; 0 where there is none
unfoldable pub seq_of : ℕ → List WorkspaceRow → ℕ
seq_of ws [] = 0
seq_of ws (w ∷ rows) = if w.id == ws then w.change_seq else seq_of ws rows

-- Each workspace's rows, newest first, are numbered from `change_seq` down to 1.
unfoldable pub FeedIsDense : Db → Type 0
FeedIsDense db = (ws : ℕ) → sequences ws db.changes ≡ countdown (seq_of ws db.workspaces)

seq_of-bump_seq-other :
    (rows : List WorkspaceRow) (ws now other : ℕ)
    → (ws == other) ≡ false
    → seq_of other (bump_seq ws now rows) ≡ seq_of other rows
unfolding seq_of bump_seq
seq_of-bump_seq-other [] ws now other h = refl
seq_of-bump_seq-other (w ∷ rows) ws now other h =
    ground (arith, seq_of-bump_seq-other rows ws now other h)

seq_of-bump_seq-same :
    (rows : List WorkspaceRow) (ws now : ℕ) (w : WorkspaceRow)
    → find_by (λ r. r.id == ws) (bump_seq ws now rows) ≡ some w
    → (seq_of ws (bump_seq ws now rows) ≡ suc (seq_of ws rows))
      × (w.change_seq ≡ suc (seq_of ws rows))
unfolding seq_of bump_seq find_by
seq_of-bump_seq-same [] ws now w h = cc
seq_of-bump_seq-same (r ∷ rows) ws now w h = ground (arith, seq_of-bump_seq-same rows ws now w)

-- a number that is not among the workspace's numbers is not in a row of it
fresh_sequence :
    (rows : List ChangeRow) (ws n : ℕ)
    → any_by (λ m. m == n) (sequences ws rows) ≡ false
    → any_by (λ d. d.workspace_id == ws && d.sequence == n) rows ≡ false
unfolding sequences any_by
fresh_sequence [] ws n h = refl
fresh_sequence (c ∷ rows) ws n h = elim (Bool-cases (c.workspace_id == ws)) [
  | inl e ↦ ground (arith, fresh_sequence rows ws n)
  | inr e ↦ ground (arith, fresh_sequence rows ws n)
]

countdown_below : (m n : ℕ) → leb n m ≡ true → any_by (λ i. i == suc m) (countdown n) ≡ false
unfolding countdown any_by
countdown_below m zero h = refl
countdown_below m (suc n) h = ground (arith, countdown_below m n)

bump_seq-find_by :
    (rows : List WorkspaceRow) (ws now : ℕ)
    → any_by (λ w. w.id == ws) rows ≡ true
    → (w : WorkspaceRow) × (find_by (λ r. r.id == ws) (bump_seq ws now rows) ≡ some w)
unfolding bump_seq find_by any_by
bump_seq-find_by [] ws now h = cc
bump_seq-find_by (r ∷ rows) ws now h = elim (Bool-cases (r.id == ws)) [
  | inl e ↦ (record r { change_seq = r.change_seq + 1; updated_at_ms = now }, rw (e, e) refl)
  | inr e ↦
      let found = bump_seq-find_by rows ws now (ground arith) in (found.0, ground (arith, found.1))
]

countdown-FeedIsDense :
    (db : Db) (ws : ℕ) (note : Note) (actor : Text) (now : ℕ)
    → FeedIsDense db
    → seq_of ws (bump_seq ws now db.workspaces) ≡ suc (seq_of ws db.workspaces)
    → FeedIsDense (record db {
      workspaces = bump_seq ws now db.workspaces;
      changes = change_row ws (suc (seq_of ws db.workspaces)) note actor now ∷ db.changes;
    })
unfolding FeedIsDense sequences countdown
countdown-FeedIsDense db ws note actor now h e = λ other. elim (Bool-cases (ws == other)) [
  | inl s ↦
      let same = ==_eq ws other s in
      rw
        (
          s,
          subst (λ o. seq_of o (bump_seq ws now db.workspaces) ≡ suc (seq_of ws db.workspaces)) same
              e,
        )
        (ap (λ t. suc (seq_of ws db.workspaces) ∷ t)
          (subst (λ o. sequences o db.changes ≡ countdown (seq_of ws db.workspaces)) same (h ws)))
  | inr s ↦ rw (s, seq_of-bump_seq-other db.workspaces ws now other s) (h other)
]

-- In a workspace that exists, whose feed is dense, `append` adds the row with the next number.
pub append_change-next :
    (db : Db) (ws : ℕ) (note : Note) (actor : Text) (now : ℕ)
    → FeedIsDense db
    → any_by (λ w. w.id == ws) db.workspaces ≡ true
    → append_change ws note actor now db
      ≡ done tt (record db {
        workspaces = bump_seq ws now db.workspaces;
        changes = change_row ws (suc (seq_of ws db.workspaces)) note actor now ∷ db.changes;
      })
unfolding append_change insert_change FeedIsDense
append_change-next db ws note actor now h k =
    let found = bump_seq-find_by db.workspaces ws now k in
    let next = seq_of-bump_seq-same db.workspaces ws now found.0 found.1 in
    rw
      (
        append_change,
        found.1,
        next.1,
        insert_change,
        fresh_sequence db.changes ws (suc (seq_of ws db.workspaces)) (
            rw (h ws)
              (countdown_below (seq_of ws db.workspaces) (seq_of ws db.workspaces) (ground arith))),
      )
      refl

append_change-Holds :
    (db : Db) (ws : ℕ) (note : Note) (actor : Text) (now : ℕ)
    → FeedIsDense db
    → Holds FeedIsDense (append_change ws note actor now db)
unfolding append_change insert_change
append_change-Holds db ws note actor now h =
    elim (Option-cases (find_by (λ w. w.id == ws) (bump_seq ws now db.workspaces))) [
      | inl e ↦ rw (append_change, e) fails
      | inr (w, e) ↦
          let next = seq_of-bump_seq-same db.workspaces ws now w e in
          rw (append_change, e, next.1, insert_change)
            (Holds-if FeedIsDense _ _ _ fails
              (ends (countdown-FeedIsDense db ws note actor now h next.0)))
    ]

pub append_change-FeedIsDense :
    (ws : ℕ) (note : Note) (actor : Text) (now : ℕ)
    → Keeps FeedIsDense (append_change ws note actor now)
append_change-FeedIsDense ws note actor now = record {
  at = λ db h. append_change-Holds db ws note actor now h;
}
