-- ===== src/Refusal/Restoring.antt =====
-- `restore_tx` of crates/fslite-sqlite/src/trash.rs.
use fslite.Common.{
  ℕ, ◌+◌, ◌≡◌, refl, sym, ap, ◌∙◌, Bool, true, false, not, ◌==◌, Option, none, some, Text, inl, inr,
  ◌⊎◌, Option-cases, Bool-cases,
}
use fslite.Path.{VirtualPath, name, parent}
use fslite.Schema.{RawNode, NodeRow, TrashRow, Db, directory_kind}
use fslite.Sql.{Host, done, is_none, keep_by, set_where, now_ms}
use fslite.Resolve.{
  ResolveOutcome, found, not_found, broken_link, link_loop, resolve_following, fetch_by_id,
  fetch_by_id_any, fetch_child,
}
use fslite.Mutate.{conflicts}
use fslite.Trash.{
  RestoreOutcome, restored, Place, place, nowhere, no_parent, delete_trash, restore_apply,
  restore_at, restore_node, restore_row, restore_tx, restore_place, place_below, place_in,
  fetch_trash_row,
}
use package.fslite.Refusal.{
  Ends, ends, panics, Ends-continue, Ends-done, Ends-if, Settled, declines,
}
use package.fslite.Refusal.Statements.{append_change-Logged, relocate_node-Ends}

abbrev pub is_restored : RestoreOutcome → Bool
is_restored (restored row) = true
is_restored _ = false

-- a row that is active again at a place
abbrev pub put_back : ℕ → Text → ℕ → ℕ → NodeRow → NodeRow
put_back parent_id dest_name revision now r = record r {
  node = record r.node {
    parent_id = some parent_id;
    name = dest_name;
    revision = revision;
    modified_at_ms = now;
  };
  trashed_at_ms = none;
}

-- A restoration that was done: the trash has the entry, its node had the expected revision, and no
-- active node was at the place that the destination or the entry names. The node's row is active
-- again, with that place as its parent and name and the next revision, and the other rows are as
-- they were; the trash has lost the entry; and what is looked up by the node's id is reported.
pub record IsRestoration (db : Db) (ws trash_id : ℕ) (destination : Option VirtualPath)
    (expected : Option ℕ) (out : RestoreOutcome) (db' : Db) : Type 0 where
  pub entry : TrashRow
  pub node : RawNode
  pub row : RawNode
  pub parent_id : ℕ
  pub dest_name : Text
  pub now : ℕ
  pub is_entry : fetch_trash_row db ws trash_id ≡ some entry
  pub is_node : fetch_by_id_any db ws entry.node_id ≡ some node
  pub is_expected : conflicts expected node ≡ false
  pub is_place : restore_place db ws destination entry ≡ place parent_id dest_name
  pub is_free : not (is_none (fetch_child db ws parent_id dest_name)) ≡ false
  pub is_marked :
      db'.nodes ≡ set_where node.id (put_back parent_id dest_name (node.revision + 1) now) db.nodes
  pub is_taken_out : db'.trash ≡ keep_by (λ t. not (t.id == trash_id)) db.trash
  pub is_row : fetch_by_id db' ws node.id ≡ some row
  pub is_reported : out ≡ restored row

-- the outcome of a place that is none
abbrev reason : Place → Bool
reason (nowhere out) = is_restored out
reason (place p n) = false
reason no_parent = false

place_in-idle : (p : ResolveOutcome) (n : Text) → reason (place_in p n) ≡ false
unfolding place_in
place_in-idle (found p) n = elim (Bool-cases (p.kind == directory_kind)) [
  | inl e ↦ rw (place_in, e) refl
  | inr e ↦ rw (place_in, e) refl
]
place_in-idle not_found n = refl
place_in-idle broken_link n = refl
place_in-idle link_loop n = refl

place_below-idle :
    (db : Db) (ws : ℕ) (n : Option Text) (p : Option VirtualPath)
    → reason (place_below db ws n p) ≡ false
unfolding place_below
place_below-idle db ws none p = refl
place_below-idle db ws (some n) none = refl
place_below-idle db ws (some n) (some p) = place_in-idle (resolve_following db ws p true) n

restore_place-idle :
    (db : Db) (ws : ℕ) (destination : Option VirtualPath) (entry : TrashRow)
    → reason (restore_place db ws destination entry) ≡ false
unfolding restore_place
restore_place-idle db ws (some path) entry = place_below-idle db ws (name path) (parent path)
restore_place-idle db ws none entry =
    elim (Option-cases (fetch_by_id db ws entry.original_parent_id)) [
      | inl e ↦ rw (restore_place, e) refl
      | inr (p, e) ↦ elim (Bool-cases (p.kind == directory_kind)) [
        | inl d ↦ rw (restore_place, e, d) refl
        | inr d ↦ rw (restore_place, e, d) refl
      ]
    ]

module _ (host : Host) (ws trash_id : ℕ) (actor : Text) (destination : Option VirtualPath)
    (expected : Option ℕ) (db : Db) where
  abbrev IsDone : RestoreOutcome → Db → Type 0
  IsDone = Settled is_restored (IsRestoration db ws trash_id destination expected) db

  idle : (out : RestoreOutcome) → is_restored out ≡ false → Ends IsDone (done out db)
  idle = declines is_restored (IsRestoration db ws trash_id destination expected) db

  module _ (entry : TrashRow) (node : RawNode)
      (is_entry : fetch_trash_row db ws trash_id ≡ some entry)
      (is_node : fetch_by_id_any db ws entry.node_id ≡ some node)
      (is_expected : conflicts expected node ≡ false) where
    restore_apply-Ends :
        (p : ℕ) (n : Text)
        → restore_place db ws destination entry ≡ place p n
        → not (is_none (fetch_child db ws p n)) ≡ false
        → Ends IsDone (restore_apply host ws trash_id actor node p n db)
    unfolding restore_apply now_ms delete_trash
    restore_apply-Ends p n d o =
        Ends-continue IsDone _ _ (relocate_node-Ends (record db { ticks = db.ticks + 1 }) node.id _)
          (λ _ db1 marked.
            Ends-continue IsDone _ _
              (append_change-Logged
                (record db1 { trash = keep_by (λ t. not (t.id == trash_id)) db1.trash }) ws _ actor
                _)
              (λ _ db2 logged. elim (Option-cases (fetch_by_id db2 ws node.id)) [
                | inl e ↦ rw e panics
                | inr (row, e) ↦ rw e (
                    ends (
                      inl (record {
                        entry = entry;
                        node = node;
                        row = row;
                        parent_id = p;
                        dest_name = n;
                        now = host.clock db.ticks;
                        is_entry = is_entry;
                        is_node = is_node;
                        is_expected = is_expected;
                        is_place = d;
                        is_free = o;
                        is_marked = ap (λ d. d.nodes) logged.is_logged ∙ ap (λ d. d.nodes) marked;
                        is_taken_out =
                            ap (λ d. d.trash) logged.is_logged
                            ∙ ap (λ d. keep_by (λ t. not (t.id == trash_id)) d.trash) marked;
                        is_row = e;
                        is_reported = refl;
                      })))
              ]))

    restore_at-Ends :
        (there : Place)
        → restore_place db ws destination entry ≡ there
        → Ends IsDone (restore_at host ws trash_id actor node there db)
    unfolding restore_at
    restore_at-Ends (nowhere out) d =
        idle out (ap reason (sym d) ∙ restore_place-idle db ws destination entry)
    restore_at-Ends no_parent d = panics
    restore_at-Ends (place p n) d =
        Ends-if IsDone _ _ _ (λ _. idle _ refl) (λ o. restore_apply-Ends p n d o)

  restore_row-Ends :
      (entry : Option TrashRow)
      → fetch_trash_row db ws trash_id ≡ entry
      → Ends IsDone (restore_row host ws trash_id actor destination expected entry db)
  unfolding restore_row restore_node
  restore_row-Ends none e = idle _ refl
  restore_row-Ends (some entry) e = elim (Option-cases (fetch_by_id_any db ws entry.node_id)) [
    | inl f ↦ rw (restore_row, f) (idle _ refl)
    | inr (node, f) ↦
        rw (restore_row, f)
          (Ends-if IsDone _ _ _ (λ _. idle _ refl)
            (λ c. restore_at-Ends entry node e f c (restore_place db ws destination entry) refl))
  ]

  -- A restoration that ends either reports that it did nothing and left every table as it was, or
  -- the node of the trash entry, of the expected revision, is active again at the free place that
  -- the destination or the entry names, with the next revision, no other row is changed, the entry
  -- is gone from the trash, and the node's row is reported.
  pub restore_tx-settles :
      (db' : Db) (out : RestoreOutcome)
      → restore_tx host ws trash_id actor destination expected db ≡ done out db'
      → IsRestoration db ws trash_id destination expected out db'
        ⊎ ((is_restored out ≡ false) × (db' ≡ db))
  unfolding restore_tx
  restore_tx-settles db' out h =
      Ends-done IsDone db db' out _ (restore_row-Ends (fetch_trash_row db ws trash_id) refl) h
