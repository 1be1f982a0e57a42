-- ===== src/Resolve/Stored.antt =====
-- What `resolve_following` of crates/fslite-sqlite/src/resolve.rs finds.
use fslite.Common.{
  ℕ, zero, suc, ◌-◌, ◌≡◌, ap, subst, Bool, true, false, ◌&&◌, none, some, List, [], ◌∷◌, ◌++◌, Text,
  codes, text_eq, inl, inr, Bool-cases, Option-cases, ◌==◌, ltb, length, and-eq-true, arith,
  if◌then◌else◌,
}
use fslite.Path
use fslite.Path.{VirtualPath, LinkTarget, segments, parse_target, is_absolute}
use fslite.Schema.{RawNode, NodeRow, Db, directory_kind, symlink_kind}
use fslite.Sql.{find_by, is_active}
use package.fslite.Resolve.{
  fetch_active, option_node, fetch_root, fetch_child, fetch_by_id, climb, FollowStep, next, broken,
  follow_absolute, follow_relative, follow_text, follow_one, ResolveOutcome, found, not_found,
  broken_link, link_loop, max_link_hops, missing, walk, resolve_following, split_segments,
}

-- An active row of the workspace holds the node.
pub data IsStored (db : Db) (ws : ℕ) (n : RawNode) : Type 0 where
  stored :
      (before after : List NodeRow) (r : NodeRow)
      → db.nodes ≡ before ++ r ∷ after
      → is_active r ≡ true
      → r.node ≡ n
      → (n.workspace_id == ws) ≡ true
      → IsStored db ws n

find_by-split :
    (p : NodeRow → Bool) (rows : List NodeRow) (r : NodeRow)
    → find_by p rows ≡ some r
    → (before : List NodeRow) × (after : List NodeRow) × (rows ≡ before ++ r ∷ after) × (p r ≡ true)
unfolding find_by
find_by-split p [] r h = cc
find_by-split p (q ∷ rows) r h = elim (Bool-cases (p q)) [
  | inl e ↦
      let same : q ≡ r = cc in ([], rows, ap (λ t. t ∷ rows) same, subst (λ t. p t ≡ true) same e)
  | inr e ↦
      let (before, after, split, k) = find_by-split p rows r cc in
      (q ∷ before, after, ap (λ t. q ∷ t) split, k)
]

fetch_active-IsStored :
    (db : Db) (ws : ℕ) (p : RawNode → Bool) (n : RawNode)
    → ((m : RawNode) → p m ≡ true → (m.workspace_id == ws) ≡ true)
    → fetch_active p db ≡ some n
    → IsStored db ws n
unfolding fetch_active
fetch_active-IsStored db ws p n within h =
    elim (Option-cases (find_by (λ r. is_active r && p r.node) db.nodes)) [
      | inl e ↦ let no : none ≡ some n = rw (fetch_active, e) at h in cc
      | inr (r, e) ↦
          let (before, after, split, k) =
            find_by-split (λ r. is_active r && p r.node) db.nodes r e in
          let (a, b) = and-eq-true (is_active r) (p r.node) k in
          let same : r.node ≡ n = some_node r n (rw (fetch_active, e) at h) in
          stored before after r split a same
            (subst (λ m. (m.workspace_id == ws) ≡ true) same (within r.node b))
    ]
  where
    some_node : (r : NodeRow) (n : RawNode) → option_node (some r) ≡ some n → r.node ≡ n
    some_node r n k = cc

module _ (db : Db) (ws : ℕ) where
  fetch_root-IsStored : (n : RawNode) → fetch_root db ws ≡ some n → IsStored db ws n
  unfolding fetch_root
  fetch_root-IsStored n h = fetch_active-IsStored db ws _ n (λ m k. ground arith) h

  fetch_child-IsStored :
      (parent : ℕ) (name : Text) (n : RawNode)
      → fetch_child db ws parent name ≡ some n
      → IsStored db ws n
  unfolding fetch_child
  fetch_child-IsStored parent name n h = fetch_active-IsStored db ws _ n (λ m k. ground arith) h

  fetch_by_id-IsStored : (i : ℕ) (n : RawNode) → fetch_by_id db ws i ≡ some n → IsStored db ws n
  unfolding fetch_by_id
  fetch_by_id-IsStored i n h = fetch_active-IsStored db ws _ n (λ m k. ground arith) h

  -- a step from whose base the walk may go on
  data StaysIn : FollowStep → Type 0 where
    goes : (base : RawNode) (rest : List Text) → IsStored db ws base → StaysIn (next base rest)
    breaks : StaysIn broken

  climb-StaysIn :
      (segs : List Text) (base : RawNode) → IsStored db ws base → StaysIn (climb db ws base segs)
  unfolding climb
  climb-StaysIn [] base h = goes base [] h
  climb-StaysIn (s ∷ segs) base h = elim (Bool-cases (text_eq s (codes ".."))) [
    | inr e ↦ rw (climb, e) (goes base (s ∷ segs) h)
    | inl e ↦ elim (Option-cases base.parent_id) [
      | inl o ↦ rw (climb, e, o) (climb-StaysIn segs base h)
      | inr (p, o) ↦ elim (Option-cases (fetch_by_id db ws p)) [
        | inl f ↦ rw (climb, e, o, f) breaks
        | inr (n, f) ↦ rw (climb, e, o, f) (climb-StaysIn segs n (fetch_by_id-IsStored p n f))
      ]
    ]
  ]

  follow_absolute-StaysIn : (t : LinkTarget) → StaysIn (follow_absolute db ws t)
  unfolding follow_absolute
  follow_absolute-StaysIn t = elim (Option-cases (fetch_root db ws)) [
    | inl e ↦ rw (follow_absolute, e) breaks
    | inr (r, e) ↦ rw (follow_absolute, e) (goes r _ (fetch_root-IsStored r e))
  ]

  follow_relative-StaysIn :
      (link : RawNode) (t : LinkTarget) → StaysIn (follow_relative db ws link t)
  unfolding follow_relative
  follow_relative-StaysIn link t = elim (Option-cases link.parent_id) [
    | inl o ↦ rw (follow_relative, o) breaks
    | inr (p, o) ↦ elim (Option-cases (fetch_by_id db ws p)) [
      | inl f ↦ rw (follow_relative, o, f) breaks
      | inr (n, f) ↦
          rw (follow_relative, o, f)
            (climb-StaysIn (split_segments t.canonical) n (fetch_by_id-IsStored p n f))
    ]
  ]

  if_StaysIn : (b : Bool) (x y : FollowStep) → StaysIn x → StaysIn y → StaysIn (if b then x else y)
  if_StaysIn true x y h k = h
  if_StaysIn false x y h k = k

  of_parsed :
      (link : RawNode) (o : Path.Parsed LinkTarget)
      → StaysIn (elim o [
        | Path.ok target ↦
            if is_absolute target
            then follow_absolute db ws target
            else follow_relative db ws link target
        | Path.invalid_path_or_name _ ↦ broken
      ])
  of_parsed link (Path.ok t) =
      if_StaysIn _ _ _ (follow_absolute-StaysIn t) (follow_relative-StaysIn link t)
  of_parsed link (Path.invalid_path_or_name t) = breaks

  follow_text-StaysIn : (link : RawNode) (text : Text) → StaysIn (follow_text db ws link text)
  unfolding follow_text
  follow_text-StaysIn link text = of_parsed link (parse_target text)

  follow_one-StaysIn : (link : RawNode) → StaysIn (follow_one db ws link)
  unfolding follow_one
  follow_one-StaysIn link = elim (Option-cases link.symlink_target) [
    | inl e ↦ rw (follow_one, e) breaks
    | inr (text, e) ↦ rw (follow_one, e) (follow_text-StaysIn link text)
  ]

  module _ (follow_final : Bool) where
    -- an outcome that, if it finds a node, finds a stored one, and no link if it is to follow them
    data IsSound : ResolveOutcome → Type 0 where
      finds :
          (n : RawNode)
          → IsStored db ws n
          → (follow_final && n.kind == symlink_kind) ≡ false
          → IsSound (found n)
      finds_none : IsSound not_found
      is_broken : IsSound broken_link
      loops : IsSound link_loop

    missing-IsSound : (lts : ℕ) → IsSound (missing lts)
    missing-IsSound lts = either_sound (ltb 0 lts)
      where
        either_sound : (b : Bool) → IsSound (if b then broken_link else not_found)
        either_sound true = is_broken
        either_sound false = finds_none

    link_or : (b : Bool) → IsSound (if b then link_loop else not_found)
    link_or true = loops
    link_or false = finds_none

    -- what is made of a step
    step-IsSound :
        (s : FollowStep) (f : RawNode → List Text → ResolveOutcome)
        → StaysIn s
        → ((base : RawNode) (rest : List Text) → IsStored db ws base → IsSound (f base rest))
        → IsSound (elim s [ broken ↦ broken_link | next base rest ↦ f base rest ])
    step-IsSound _ f (goes base rest h) k = k base rest h
    step-IsSound _ f breaks k = is_broken

    -- what is made of a child
    child-IsSound :
        (current : RawNode) (segment : Text) (lts : ℕ) (f : RawNode → ResolveOutcome)
        → ((child : RawNode) → IsStored db ws child → IsSound (f child))
        → IsSound (elim (fetch_child db ws current.id segment) [
          | none ↦ missing lts
          | some child ↦ f child
        ])
    child-IsSound current segment lts f k =
        elim (Option-cases (fetch_child db ws current.id segment)) [
          | inl e ↦ rw e (missing-IsSound lts)
          | inr (child, e) ↦ rw e (k child (fetch_child-IsStored current.id segment child e))
        ]

    walk-IsSound :
        (left : ℕ) (segs : List Text) (current : RawNode) (lts : ℕ)
        → IsStored db ws current
        → IsSound (walk db ws follow_final left current segs lts)
    unfolding walk
    walk-IsSound zero [] current lts h =
        elim (Bool-cases (follow_final && current.kind == symlink_kind)) [
          | inl e ↦ rw e loops
          | inr e ↦ rw e (finds current h e)
        ]
    walk-IsSound (suc left) [] current lts h =
        elim (Bool-cases (follow_final && current.kind == symlink_kind)) [
          | inr e ↦ rw (walk, e) (finds current h e)
          | inl e ↦
              rw (walk, e)
                (step-IsSound _ _ (follow_one-StaysIn current)
                  (λ base rest k. walk-IsSound left rest base (length rest) k))
        ]
    walk-IsSound zero (s ∷ segs) current lts h =
        elim (Bool-cases (current.kind == directory_kind)) [
          | inl d ↦
              rw (walk, d)
                (child-IsSound current s lts _
                  (λ child k. walk-IsSound zero segs child (lts - 1) k))
          | inr d ↦ rw (walk, d) (link_or _)
        ]
    walk-IsSound (suc left) (s ∷ segs) current lts h =
        elim (Bool-cases (current.kind == directory_kind)) [
          | inl d ↦
              rw (walk, d)
                (child-IsSound current s lts _
                  (λ child k. walk-IsSound (suc left) segs child (lts - 1) k))
          | inr d ↦ elim (Bool-cases (current.kind == symlink_kind)) [
            | inr e ↦ rw (walk, d, e) finds_none
            | inl e ↦
                rw (walk, d, e)
                  (step-IsSound _ _ (follow_one-StaysIn current)
                    (λ base rest k. walk-IsSound left (rest ++ s ∷ segs) base (length rest) k))
          ]
        ]

    resolve_following-IsSound :
        (path : VirtualPath) → IsSound (resolve_following db ws path follow_final)
    unfolding resolve_following
    resolve_following-IsSound path = elim (Option-cases (fetch_root db ws)) [
      | inl e ↦ rw (resolve_following, e) finds_none
      | inr (r, e) ↦
          rw (resolve_following, e)
            (walk-IsSound max_link_hops (segments path) r 0 (fetch_root-IsStored r e))
    ]

    sound_found :
        (out : ResolveOutcome) (n : RawNode)
        → out ≡ found n
        → IsSound out
        → IsStored db ws n × ((follow_final && n.kind == symlink_kind) ≡ false)
    sound_found _ n e (finds m h k) =
        let same : m ≡ n = cc in
        (
          subst (IsStored db ws) same h,
          subst (λ t. (follow_final && t.kind == symlink_kind) ≡ false) same k,
        )
    sound_found _ n e finds_none = cc
    sound_found _ n e is_broken = cc
    sound_found _ n e loops = cc

-- A node that `resolve_following` finds stands in an active row of the workspace, and is no link
-- where the final link is to be followed.
pub resolve_following-IsStored :
    (db : Db) (ws : ℕ) (path : VirtualPath) (follow_final : Bool) (n : RawNode)
    → resolve_following db ws path follow_final ≡ found n
    → IsStored db ws n × ((follow_final && n.kind == symlink_kind) ≡ false)
resolve_following-IsStored db ws path follow_final n h =
    sound_found db ws follow_final _ n h (resolve_following-IsSound db ws follow_final path)
