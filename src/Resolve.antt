-- ===== src/Resolve.antt =====
-- crates/fslite-sqlite/src/resolve.rs: look-ups in `nodes`, and the walk along a path.
pub mod Agreement
pub mod Stored
use fslite.Common.{
  ℕ, zero, suc, ◌-◌, ◌<◌, Bool, true, false, not, ◌&&◌, ◌||◌, Option, none, some, List, [], ◌∷◌,
  ◌++◌, Text, codes, text_eq, ltb, length, ◌==◌, if◌then◌else◌,
}
use fslite.Path.{
  VirtualPath, LinkTarget, Parsed, ok, invalid_path_or_name, split, is_empty, segments,
  parse_target, is_absolute,
}
use fslite.Schema.{RawNode, NodeRow, Db, directory_kind, symlink_kind}
use fslite.Sql.{find_by, keep_by, any_by, is_just, is_none, is_active}

abbrev pub option_node : Option NodeRow → Option RawNode
option_node none = none
option_node (some r) = some r.node

-- A SELECT of one row that is not trashed.
unfoldable pub fetch_active : (RawNode → Bool) → Db → Option RawNode
fetch_active p db = option_node (find_by (λ r. is_active r && p r.node) db.nodes)

abbrev pub is_root_of : ℕ → RawNode → Bool
is_root_of ws n = n.workspace_id == ws && is_none n.parent_id

abbrev pub is_child_of : ℕ → ℕ → RawNode → Bool
is_child_of ws parent n = n.workspace_id == ws && is_just n.parent_id parent

unfoldable pub fetch_root : Db → ℕ → Option RawNode
fetch_root db ws = fetch_active (is_root_of ws) db

unfoldable pub fetch_child : Db → ℕ → ℕ → Text → Option RawNode
fetch_child db ws parent name =
    fetch_active (λ n. is_child_of ws parent n && text_eq n.name name) db

unfoldable pub fetch_by_id : Db → ℕ → ℕ → Option RawNode
fetch_by_id db ws id = fetch_active (λ n. n.workspace_id == ws && n.id == id) db

unfoldable pub fetch_by_id_any : Db → ℕ → ℕ → Option RawNode
fetch_by_id_any db ws id =
    option_node (find_by (λ r. r.node.workspace_id == ws && r.node.id == id) db.nodes)

unfoldable pub has_active_children : Db → ℕ → ℕ → Bool
has_active_children db ws parent =
    any_by (λ r. is_active r && is_child_of ws parent r.node) db.nodes

text_lt : Text → Text → Bool
text_lt [] [] = false
text_lt [] (y ∷ ys) = true
text_lt (x ∷ xs) [] = false
text_lt (x ∷ xs) (y ∷ ys) = ltb x y || (x == y && text_lt xs ys)

-- ORDER BY name, id
comes_before : RawNode → RawNode → Bool
comes_before a b = text_lt a.name b.name || (text_eq a.name b.name && ltb a.id b.id)

insert_ordered : RawNode → List RawNode → List RawNode
insert_ordered n [] = n ∷ []
insert_ordered n (m ∷ ms) = if comes_before m n then m ∷ insert_ordered n ms else n ∷ m ∷ ms

ordered : List NodeRow → List RawNode
ordered [] = []
ordered (r ∷ rows) = insert_ordered r.node (ordered rows)

unfoldable pub fetch_children : Db → ℕ → ℕ → List RawNode
unfolding text_lt comes_before insert_ordered ordered
fetch_children db ws parent =
    ordered (keep_by (λ r. is_active r && is_child_of ws parent r.node) db.nodes)

-- The loop of `resolve`.
unfoldable pub descend : Db → ℕ → RawNode → List Text → Option RawNode
descend db ws current [] = some current
descend db ws current (segment ∷ rest) =
    if not (current.kind == directory_kind)
    then none
    else (elim (fetch_child db ws current.id segment) [
      | none ↦ none
      | some child ↦ descend db ws child rest
    ])

unfoldable pub resolve : Db → ℕ → VirtualPath → Option RawNode
resolve db ws path = elim (fetch_root db ws) [
  | none ↦ none
  | some r ↦ descend db ws r (segments path)
]

-- `FollowStep` without `Loop`, which the walk decides before it follows.
pub data FollowStep : Type 0 where
  next : RawNode → List Text → FollowStep
  broken : FollowStep

unfoldable pub drop_dots : List Text → List Text
drop_dots [] = []
drop_dots (s ∷ ss) =
    let rest = drop_dots ss in if is_empty s || text_eq s (codes ".") then rest else s ∷ rest

unfoldable pub split_segments : Text → List Text
unfolding drop_dots
split_segments path = drop_dots (split path)

-- The loop of `follow_one` over leading ".." segments.
unfoldable pub climb : Db → ℕ → RawNode → List Text → FollowStep
climb db ws base [] = next base []
climb db ws base (segment ∷ rest) = elim (text_eq segment (codes "..")) [
  | false ↦ next base (segment ∷ rest)
  | true ↦ elim base.parent_id [
    | none ↦ climb db ws base rest
    | some grandparent_id ↦ elim (fetch_by_id db ws grandparent_id) [
      | none ↦ broken
      | some node ↦ climb db ws node rest
    ]
  ]
]

unfoldable pub follow_absolute : Db → ℕ → LinkTarget → FollowStep
follow_absolute db ws target = elim (fetch_root db ws) [
  | none ↦ broken
  | some r ↦ next r (split_segments target.canonical)
]

unfoldable pub follow_relative : Db → ℕ → RawNode → LinkTarget → FollowStep
follow_relative db ws link target = elim link.parent_id [
  | none ↦ broken
  | some parent_id ↦ elim (fetch_by_id db ws parent_id) [
    | none ↦ broken
    | some base ↦ climb db ws base (split_segments target.canonical)
  ]
]

unfoldable pub follow_text : Db → ℕ → RawNode → Text → FollowStep
unfolding follow_absolute follow_relative
follow_text db ws link text = elim (parse_target text) [
  | invalid_path_or_name _ ↦ broken
  | ok target ↦
      if is_absolute target then follow_absolute db ws target else follow_relative db ws link target
]

-- `follow_one`, once the hop is counted.
unfoldable pub follow_one : Db → ℕ → RawNode → FollowStep
unfolding follow_text
follow_one db ws link = elim link.symlink_target [
  | none ↦ broken
  | some text ↦ follow_text db ws link text
]

pub data ResolveOutcome : Type 0 where
  found : RawNode → ResolveOutcome
  not_found broken_link link_loop : ResolveOutcome

abbrev pub max_link_hops : ℕ
max_link_hops = 40

abbrev missing : ℕ → ResolveOutcome
missing link_target_segments = if ltb 0 link_target_segments then broken_link else not_found

-- The loop of `resolve_following`: `left` is MAX_LINK_HOPS less the hops taken, the last argument
-- is `link_target_segments`.
module _ (db : Db) (ws : ℕ) (follow_final : Bool) where
  unfoldable pub walk : ℕ → RawNode → List Text → ℕ → ResolveOutcome
  walk zero current [] lts =
      if follow_final && current.kind == symlink_kind then link_loop else found current
  walk (suc left) current [] lts = elim (follow_final && current.kind == symlink_kind) [
    | false ↦ found current
    | true ↦ elim (follow_one db ws current) [
      | broken ↦ broken_link
      | next base remaining ↦ walk left base remaining (length remaining)
    ]
  ]
  walk zero current (segment ∷ rest) lts = elim (current.kind == directory_kind) [
    | true ↦ elim (fetch_child db ws current.id segment) [
      | none ↦ missing lts
      | some child ↦ walk zero child rest (lts - 1)
    ]
    | false ↦ if current.kind == symlink_kind then link_loop else not_found
  ]
  walk (suc left) current (segment ∷ rest) lts = elim (current.kind == directory_kind) [
    | true ↦ elim (fetch_child db ws current.id segment) [
      | none ↦ missing lts
      | some child ↦ walk (suc left) child rest (lts - 1)
    ]
    | false ↦ elim (current.kind == symlink_kind) [
      | false ↦ not_found
      | true ↦ elim (follow_one db ws current) [
        | broken ↦ broken_link
        | next base remaining ↦ walk left base (remaining ++ segment ∷ rest) (length remaining)
      ]
    ]
  ]

unfoldable pub resolve_following : Db → ℕ → VirtualPath → Bool → ResolveOutcome
resolve_following db ws path follow_final = elim (fetch_root db ws) [
  | none ↦ not_found
  | some r ↦ walk db ws follow_final max_link_hops r (segments path) 0
]
