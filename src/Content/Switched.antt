-- ===== src/Content/Switched.antt =====
-- Looking a path up after the columns of one file's row were rewritten, as `finalize_tx` of
-- crates/fslite-sqlite/src/content.rs rewrites them.
use fslite.Common.{
  ℕ, ◌≡◌, refl, ap, ◌∙◌, Bool, true, ◌&&◌, Option, none, some, List, [], ◌∷◌, Text, ◌==◌,
  if◌then◌else◌, inl, inr, Bool-cases, Option-cases, text_eq,
}
use fslite.Path.{VirtualPath, segments}
use fslite.Schema.{RawNode, NodeRow, Db, directory_kind}
use fslite.Sql.{find_by, set_where, is_active}
use fslite.Resolve.{
  option_node, is_root_of, is_child_of, fetch_active, fetch_root, fetch_child, descend, resolve,
}

-- the columns of a file that switches to a generation
abbrev pub switched_node : ℕ → ℕ → ℕ → ℕ → RawNode → RawNode
switched_node generation length revision now n = record n {
  content_generation_id = some generation;
  size = length;
  revision = revision;
  modified_at_ms = now;
  accessed_at_ms = now;
}

abbrev mapped {ℓ} : {A : Type ℓ} → (A → A) → Option A → Option A
mapped f none = none
mapped f (some a) = some (f a)

module _ (i : ℕ) (h : RawNode → RawNode) where
  abbrev pub switch_row : NodeRow → NodeRow
  switch_row r = record r { node = h r.node }

  abbrev at_row : NodeRow → NodeRow
  at_row r = if r.node.id == i then switch_row r else r

  abbrev at_node : RawNode → RawNode
  at_node n = if n.id == i then h n else n

  find_by-set_where :
      (p : NodeRow → Bool)
      → ((r : NodeRow) → p (switch_row r) ≡ p r)
      → (rows : List NodeRow)
      → find_by p (set_where i switch_row rows) ≡ mapped at_row (find_by p rows)
  unfolding find_by set_where
  find_by-set_where p same [] = refl
  find_by-set_where p same (r ∷ rows) =
      let rest = find_by-set_where p same rows in
      elim (Bool-cases (r.node.id == i)) [
        | inl e ↦ elim (Bool-cases (p r)) [
          | inl k ↦ rw (set_where, e, find_by, same r, k) (rw e refl)
          | inr k ↦ rw (set_where, e, find_by, same r, k) rest
        ]
        | inr e ↦ elim (Bool-cases (p r)) [
          | inl k ↦ rw (set_where, e, find_by, k) (rw e refl)
          | inr k ↦ rw (set_where, e, find_by, k) rest
        ]
      ]

  option_node-mapped :
      (o : Option NodeRow) → option_node (mapped at_row o) ≡ mapped at_node (option_node o)
  option_node-mapped none = refl
  option_node-mapped (some r) = elim (Bool-cases (r.node.id == i)) [
    | inl e ↦ rw e refl
    | inr e ↦ rw e refl
  ]

  fetch_active-switched :
      (db db' : Db) (p : RawNode → Bool)
      → db'.nodes ≡ set_where i switch_row db.nodes
      → ((n : RawNode) → p (h n) ≡ p n)
      → fetch_active p db' ≡ mapped at_node (fetch_active p db)
  unfolding fetch_active
  fetch_active-switched db db' p e same =
      ap (λ rows. option_node (find_by (λ r. is_active r && p r.node) rows)) e
      ∙ ap option_node (
          find_by-set_where (λ r. is_active r && p r.node)
            (λ r. ap (λ b. is_active r && b) (same r.node)) db.nodes)
      ∙ option_node-mapped (find_by (λ r. is_active r && p r.node) db.nodes)

module _ (i generation length revision now : ℕ) (db db' : Db) (ws : ℕ) where
  abbrev switched : RawNode → RawNode
  switched = at_node i (switched_node generation length revision now)

  abbrev Switches : Type 0
  Switches =
      db'.nodes ≡ set_where i (switch_row i (switched_node generation length revision now)) db.nodes

  same_place : (n : RawNode) → ((switched n).id ≡ n.id) × ((switched n).kind ≡ n.kind)
  same_place n = elim (Bool-cases (n.id == i)) [
    | inl e ↦ rw e (refl, refl)
    | inr e ↦ rw e (refl, refl)
  ]

  fetch_child-switched :
      (parent : ℕ) (name : Text)
      → Switches
      → fetch_child db' ws parent name ≡ mapped switched (fetch_child db ws parent name)
  unfolding fetch_child
  fetch_child-switched parent name e =
      fetch_active-switched i (switched_node generation length revision now) db db' _ e (λ n. refl)

  descend-switched :
      (names : List Text) (current : RawNode)
      → Switches
      → descend db' ws (switched current) names ≡ mapped switched (descend db ws current names)
  unfolding descend
  descend-switched [] current e = refl
  descend-switched (name ∷ rest) current e =
      let (same_id, same_kind) = same_place current in
      elim (Bool-cases (current.kind == directory_kind)) [
        | inr k ↦ rw (descend, same_kind, k) refl
        | inl k ↦
            rw (descend, same_kind, k, same_id, fetch_child-switched current.id name e)
              (elim (Option-cases (fetch_child db ws current.id name)) [
                | inl n ↦ rw n refl
                | inr (child, n) ↦ rw n (descend-switched rest child e)
              ])
      ]

  resolve-switched :
      (path : VirtualPath) → Switches → resolve db' ws path ≡ mapped switched (resolve db ws path)
  unfolding resolve fetch_root
  resolve-switched path e =
      rw
        (
          resolve,
          fetch_active-switched i (switched_node generation length revision now) db db'
              (is_root_of ws) e (λ n. refl),
        )
        (elim (Option-cases (fetch_active (is_root_of ws) db)) [
          | inl n ↦ rw (resolve, n) refl
          | inr (root, n) ↦ rw (resolve, n) (descend-switched (segments path) root e)
        ])

  -- the row that is switched is what its path leads to then
  pub resolve-same :
      (path : VirtualPath) (node : RawNode)
      → Switches
      → resolve db ws path ≡ some node
      → (node.id == i) ≡ true
      → resolve db' ws path ≡ some (switched_node generation length revision now node)
  resolve-same path node e found same =
      resolve-switched path e ∙ ap (mapped switched) found ∙ rw same refl

-- a look-up reads the table of the nodes alone
descend-nodes :
    (db db' : Db) (ws : ℕ) (names : List Text) (current : RawNode)
    → db'.nodes ≡ db.nodes
    → descend db' ws current names ≡ descend db ws current names
unfolding descend fetch_child fetch_active
descend-nodes db db' ws [] current e = refl
descend-nodes db db' ws (name ∷ rest) current e =
    elim (Bool-cases (current.kind == directory_kind)) [
      | inr k ↦ rw (descend, k) refl
      | inl k ↦
          rw (descend, k)
            (ap
                (λ rows.
                  elim (option_node (
                    find_by
                      (λ r.
                        is_active r
                        && (is_child_of ws current.id r.node && text_eq r.node.name name))
                      rows)) [ none ↦ none | some child ↦ descend db' ws child rest ])
                e
              ∙ elim (Option-cases (fetch_child db ws current.id name)) [
                | inl n ↦ rw n refl
                | inr (child, n) ↦ rw n (descend-nodes db db' ws rest child e)
              ])
    ]

pub resolve-nodes :
    (db db' : Db) (ws : ℕ) (path : VirtualPath)
    → db'.nodes ≡ db.nodes
    → resolve db' ws path ≡ resolve db ws path
unfolding resolve fetch_root fetch_active
resolve-nodes db db' ws path e =
    ap
      (λ rows. elim (option_node (find_by (λ r. is_active r && is_root_of ws r.node) rows)) [
        | none ↦ none
        | some r ↦ descend db' ws r (segments path)
      ])
      e
    ∙ elim (Option-cases (fetch_root db ws)) [
      | inl n ↦ rw (resolve, n) refl
      | inr (root, n) ↦ rw (resolve, n) (descend-nodes db db' ws (segments path) root e)
    ]
