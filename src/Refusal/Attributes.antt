-- ===== src/Refusal/Attributes.antt =====
-- `set_attribute_tx` of crates/fslite-sqlite/src/mutate.rs.
use fslite.Common.{
  ℕ, ◌+◌, ◌≡◌, refl, sym, ap, ◌∙◌, Bool, true, false, Option, none, some, List, [], ◌∷◌, Text,
  text_eq, text_eq_refl, text_eq_eq, ◌==◌, ==_refl, ==_eq, Bool-cases, arith, inl, inr, ◌⊎◌,
  Option-cases, not, ◌&&◌, ◌||◌, ltb, leb, length, if◌then◌else◌,
}
use fslite.Path.{VirtualPath, is_empty}
use fslite.Schema.{RawNode, AttributeRow, ChangeKind, Db}
use fslite.Sql.{Host, done, any_by, find_by, keep_by, set_where, now_ms, update_node}
use fslite.Resolve.{
  ResolveOutcome, found, not_found, broken_link, link_loop, resolve_following, fetch_by_id,
}
use fslite.Mutate.{conflicts}
use fslite.Mutate.Attribute.{
  AttributeOutcome, updated, invalid_key, quota, conflict, is_at, max_attribute_key_bytes,
  max_attribute_value_bytes, max_attributes_per_node, count_attributes, build_attributes_map,
  upsert_attribute, set_check, touched, attribute_apply, set_found, set_outcome, set_attribute_tx,
}
use package.fslite.Refusal.{Ends, ends, panics, Ends-continue, Ends-done, Settled, declines}
use package.fslite.Refusal.Statements.{append_change-Logged}

abbrev pub is_updated : AttributeOutcome → Bool
is_updated (updated row attributes) = true
is_updated _ = false

abbrev entry : ℕ → Text → Text → AttributeRow
entry i key value = record { node_id = i; key = key; value = value }

is_at-entry : (i : ℕ) (key value : Text) → is_at i key (entry i key value) ≡ true
is_at-entry i key value = rw (==_refl i, text_eq_refl key) refl

-- a row that is at the place is the entry, once it has the value
entry-is_at :
    (i : ℕ) (key value : Text) (a : AttributeRow)
    → is_at i key a ≡ true
    → record a { value = value } ≡ entry i key value
entry-is_at i key value a h =
    let (same_node, same_key) = both (a.node_id == i) (text_eq a.key key) h in
    ap (λ n. entry n a.key value) (==_eq a.node_id i same_node)
    ∙ ap (λ k. entry i k value) (text_eq_eq a.key key same_key)
  where
    both : (b c : Bool) → (b && c) ≡ true → (b ≡ true) × (c ≡ true)
    both b c h = ground arith

find_by-upsert_attribute :
    (i : ℕ) (key value : Text) (rows : List AttributeRow)
    → find_by (is_at i key) (upsert_attribute i key value rows) ≡ some (entry i key value)
unfolding find_by upsert_attribute
find_by-upsert_attribute i key value [] = rw (is_at-entry i key value) refl
find_by-upsert_attribute i key value (a ∷ rows) = elim (Bool-cases (is_at i key a)) [
  | inl e ↦ rw (upsert_attribute, e, find_by) (rw e (ap some (entry-is_at i key value a e)))
  | inr e ↦ rw (upsert_attribute, e, find_by) (rw e (find_by-upsert_attribute i key value rows))
]

keep_by-upsert_attribute :
    (i : ℕ) (key value : Text) (rows : List AttributeRow)
    → keep_by (λ a. not (is_at i key a)) (upsert_attribute i key value rows)
      ≡ keep_by (λ a. not (is_at i key a)) rows
unfolding keep_by upsert_attribute
keep_by-upsert_attribute i key value [] = rw (is_at-entry i key value) refl
keep_by-upsert_attribute i key value (a ∷ rows) = elim (Bool-cases (is_at i key a)) [
  | inl e ↦ rw (upsert_attribute, e, keep_by) (rw e refl)
  | inr e ↦
      rw (upsert_attribute, e, keep_by)
        (rw e (ap (λ t. a ∷ t) (keep_by-upsert_attribute i key value rows)))
]

-- An attribute that was set: of the node that the path names, whose revision, key, value and number
-- of attributes pass every check. The attribute has the value, and the other ones are as they were;
-- the node's row has the next revision, and the other rows are as they were; the node's row and its
-- attributes as they are then are reported.
pub record IsSetting (host : Host) (db : Db) (ws : ℕ) (path : VirtualPath) (key value : Text)
    (expected : Option ℕ) (out : AttributeOutcome) (db' : Db) : Type 0 where
  pub node : RawNode
  pub row : RawNode
  pub now : ℕ
  pub is_node : resolve_following db ws path false ≡ found node
  pub is_checked : set_check db node key value expected ≡ none
  pub is_set :
      find_by (is_at node.id key) db'.attributes
      ≡ some (record { node_id = node.id; key = key; value = value })
  pub are_others :
      keep_by (λ a. not (is_at node.id key a)) db'.attributes
      ≡ keep_by (λ a. not (is_at node.id key a)) db.attributes
  pub is_touched :
      db'.nodes
      ≡ set_where node.id
          (λ r. record r {
            node = record r.node { revision = node.revision + 1; modified_at_ms = now };
          })
          db.nodes
  pub is_row : fetch_by_id db' ws node.id ≡ some row
  pub is_reported : out ≡ updated row (build_attributes_map host node.id db')

abbrev declined : Option AttributeOutcome → Bool
declined none = false
declined (some out) = is_updated out

declined-if :
    (a b c d : Bool)
    → declined (
        if a
        then some invalid_key
        else if b
        then some quota
        else if c
        then some conflict
        else if d
        then some quota
        else none)
      ≡ false
declined-if true b c d = refl
declined-if false true c d = refl
declined-if false false true d = refl
declined-if false false false true = refl
declined-if false false false false = refl

set_check-idle :
    (db : Db) (node : RawNode) (key value : Text) (expected : Option ℕ)
    → declined (set_check db node key value expected) ≡ false
unfolding set_check
set_check-idle db node key value expected =
    declined-if (is_empty key || ltb max_attribute_key_bytes (length key))
      (ltb max_attribute_value_bytes (length value)) (conflicts expected node)
      (not (any_by (is_at node.id key) db.attributes)
        && leb max_attributes_per_node (count_attributes node.id db.attributes))

module _ (host : Host) (ws : ℕ) (path : VirtualPath) (key : Text) (actor value : Text)
    (expected : Option ℕ) (db : Db) where
  abbrev IsDone : AttributeOutcome → Db → Type 0
  IsDone = Settled is_updated (IsSetting host db ws path key value expected) db

  idle : (out : AttributeOutcome) → is_updated out ≡ false → Ends IsDone (done out db)
  idle = declines is_updated (IsSetting host db ws path key value expected) db

  attribute_apply-Ends :
      (node : RawNode)
      → resolve_following db ws path false ≡ found node
      → set_check db node key value expected ≡ none
      → Ends IsDone (
          attribute_apply host ws path key actor ChangeKind.attribute_set node
            (record db { attributes = upsert_attribute node.id key value db.attributes }))
  unfolding attribute_apply now_ms update_node
  attribute_apply-Ends node e c =
      Ends-continue IsDone _ _
        (append_change-Logged
          (record db {
            attributes = upsert_attribute node.id key value db.attributes;
            nodes = set_where node.id (touched (node.revision + 1) (host.clock db.ticks)) db.nodes;
            ticks = db.ticks + 1;
          })
          ws _ actor _)
        (λ _ db2 logged. elim (Option-cases (fetch_by_id db2 ws node.id)) [
          | inl f ↦ rw f panics
          | inr (row, f) ↦ rw f (
              ends (
                inl (record {
                  node = node;
                  row = row;
                  now = host.clock db.ticks;
                  is_node = e;
                  is_checked = c;
                  is_set =
                      ap (λ d. find_by (is_at node.id key) d.attributes) logged.is_logged
                      ∙ find_by-upsert_attribute node.id key value db.attributes;
                  are_others =
                      ap (λ d. keep_by (λ a. not (is_at node.id key a)) d.attributes)
                        logged.is_logged
                      ∙ keep_by-upsert_attribute node.id key value db.attributes;
                  is_touched = ap (λ d. d.nodes) logged.is_logged;
                  is_row = f;
                  is_reported = refl;
                })))
        ])

  set_outcome-Ends :
      (out : ResolveOutcome)
      → resolve_following db ws path false ≡ out
      → Ends IsDone (set_outcome host ws path key actor value expected out db)
  unfolding set_outcome set_found
  set_outcome-Ends not_found e = idle _ refl
  set_outcome-Ends broken_link e = idle _ refl
  set_outcome-Ends link_loop e = idle _ refl
  set_outcome-Ends (found node) e = elim (Option-cases (set_check db node key value expected)) [
    | inr (out, c) ↦
        rw (set_outcome, set_found, c)
          (idle out (ap declined (sym c) ∙ set_check-idle db node key value expected))
    | inl c ↦ rw (set_outcome, set_found, c) (attribute_apply-Ends node e c)
  ]

  -- Setting an attribute, if it ends, either reports that it did nothing and left every table as it
  -- was, or the node that the path names passed the checks of key, size, revision and number, it
  -- has the attribute with that value and the next revision, the other attributes and the other
  -- rows of nodes are as they were, and the row and its attributes are reported.
  pub set_attribute_tx-settles :
      (db' : Db) (out : AttributeOutcome)
      → set_attribute_tx host ws path key actor value expected db ≡ done out db'
      → IsSetting host db ws path key value expected out db'
        ⊎ ((is_updated out ≡ false) × (db' ≡ db))
  unfolding set_attribute_tx
  set_attribute_tx-settles db' out h =
      Ends-done IsDone db db' out _ (set_outcome-Ends (resolve_following db ws path false) refl) h
