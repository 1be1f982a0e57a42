-- ===== src/Resolve/Agreement.antt =====
-- `resolve` and `resolve_following` of crates/fslite-sqlite/src/resolve.rs side by side.
use fslite.Common.{
  ℕ, zero, suc, ◌-◌, ◌≡◌, refl, sym, ap, ◌∙◌, Bool, true, false, ◌&&◌, none, some, List, [], ◌∷◌,
  ◌++◌, Text, inl, inr, Bool-cases, Option-cases, ◌==◌, leb, if◌then◌else◌, length, append-nil,
  arith,
}
use fslite.Path.{VirtualPath, segments}
use fslite.Schema.{RawNode, Db, directory_kind, symlink_kind}
use package.fslite.Resolve.{
  fetch_root, fetch_child, descend, resolve, next, follow_one, found, link_loop, max_link_hops,
  walk, resolve_following,
}

module _ (db : Db) (ws : ℕ) where
  -- what a descent through one more directory took
  descend-cons :
      (current n : RawNode) (segment : Text) (rest : List Text)
      → descend db ws current (segment ∷ rest) ≡ some n
      → (current.kind == directory_kind ≡ true)
        × (child : RawNode) × (fetch_child db ws current.id segment ≡ some child)
        × (descend db ws child rest ≡ some n)
  unfolding descend
  descend-cons current n segment rest h = elim (Bool-cases (current.kind == directory_kind)) [
    | inr d ↦ let no : none ≡ some n = rw d at h in cc
    | inl d ↦ elim (Option-cases (fetch_child db ws current.id segment)) [
      | inl e ↦ let no : none ≡ some n = rw (d, e) at h in cc
      | inr (child, e) ↦ (d, child, e, (rw (d, e) at h))
    ]
  ]

  module _ (follow_final : Bool) where
    -- the walk through directories, whatever comes behind
    walk-descend :
        (segs : List Text) (left : ℕ) (current n : RawNode) (more : List Text) (lts : ℕ)
        → descend db ws current segs ≡ some n
        → walk db ws follow_final left current (segs ++ more) lts
          ≡ walk db ws follow_final left n more (lts - length segs)
    unfolding walk descend
    walk-descend [] left current n more lts h =
        let here : current ≡ n = cc in
        let same : lts - 0 ≡ lts = omega arith in rw (same, here) refl
    walk-descend (s ∷ segs) zero current n more lts h =
        let (d, child, e, k) = descend-cons current n s segs h in
        rw (walk, d, e)
          (walk-descend segs zero child n more (lts - 1) k
            ∙ ap (λ t. walk db ws follow_final zero n more t) (omega arith))
    walk-descend (s ∷ segs) (suc left) current n more lts h =
        let (d, child, e, k) = descend-cons current n s segs h in
        rw (walk, d, e)
          (walk-descend segs (suc left) child n more (lts - 1) k
            ∙ ap (λ t. walk db ws follow_final (suc left) n more t) (omega arith))

    walk-nil :
        (left : ℕ) (n : RawNode) (lts : ℕ)
        → (follow_final && n.kind == symlink_kind) ≡ false
        → walk db ws follow_final left n [] lts ≡ found n
    unfolding walk
    walk-nil zero n lts h = rw h refl
    walk-nil (suc left) n lts h = rw (walk, h) refl

  -- Links one behind the other: each leads to the next one, and the last one to `final`.
  pub data Chain (final : RawNode) : ℕ → RawNode → Type 0 where
    here : Chain final 0 final
    hop :
        {k : ℕ} (link base next_node : RawNode) (remaining : List Text)
        → (link.kind == symlink_kind) ≡ true
        → follow_one db ws link ≡ next base remaining
        → descend db ws base remaining ≡ some next_node
        → Chain final k next_node
        → Chain final (suc k) link

  walk-Chain :
      (final : RawNode) (k left : ℕ) (start : RawNode) (lts : ℕ)
      → (final.kind == symlink_kind) ≡ false
      → Chain final k start
      → walk db ws true left start [] lts ≡ (if leb k left then found final else link_loop)
  unfolding walk
  walk-Chain final _ left _ lts e here = walk-nil true left final lts e ∙ within left
    where
      within : (n : ℕ) → found final ≡ (if leb 0 n then found final else link_loop)
      within n = ground arith
  walk-Chain final _ zero _ lts e (hop {k} link base next_node remaining s f d c) = rw s (beyond k)
    where
      beyond : (n : ℕ) → link_loop ≡ (if leb (suc n) 0 then found final else link_loop)
      beyond n = ground arith
  walk-Chain final _ (suc left) _ lts e (hop {k} link base next_node remaining s f d c) =
      rw (walk, s, f)
        (ap (λ t. walk db ws true left base t (length remaining)) (sym (append-nil remaining))
          ∙ walk-descend true remaining left base next_node [] (length remaining) d
          ∙ walk-Chain final k left next_node _ e c
          ∙ ap (λ b. if b then found final else link_loop) (shifted k left))
    where
      shifted : (a b : ℕ) → leb a b ≡ leb (suc a) (suc b)
      shifted a b = ground arith

-- Where `resolve` finds a node, `resolve_following` finds the same one, if it is not to be followed
-- or is no link.
pub resolve-resolve_following :
    (db : Db) (ws : ℕ) (path : VirtualPath) (follow_final : Bool) (n : RawNode)
    → resolve db ws path ≡ some n
    → (follow_final && n.kind == symlink_kind) ≡ false
    → resolve_following db ws path follow_final ≡ found n
unfolding resolve resolve_following
resolve-resolve_following db ws path follow_final n h k = elim (Option-cases (fetch_root db ws)) [
  | inl e ↦ let no : none ≡ some n = rw (resolve, e) at h in cc
  | inr (r, e) ↦
      let down : descend db ws r (segments path) ≡ some n = rw (resolve, e) at h in
      rw (resolve_following, e)
        (ap (λ t. walk db ws follow_final max_link_hops r t 0) (sym (append-nil (segments path)))
          ∙ walk-descend db ws follow_final (segments path) max_link_hops r n [] 0 down
          ∙ walk-nil db ws follow_final max_link_hops n _ k)
]

-- A path to the first one of `k` links in a chain is followed to the node behind the last one, no
-- link, if there are 40 links at most, and is a loop if there are more.
pub resolve_following-Chain :
    (db : Db) (ws : ℕ) (path : VirtualPath) (start final : RawNode) (k : ℕ)
    → resolve db ws path ≡ some start
    → Chain db ws final k start
    → (final.kind == symlink_kind) ≡ false
    → resolve_following db ws path true ≡ (if leb k 40 then found final else link_loop)
unfolding resolve resolve_following
resolve_following-Chain db ws path start final k h c e = elim (Option-cases (fetch_root db ws)) [
  | inl f ↦ let no : none ≡ some start = rw (resolve, f) at h in cc
  | inr (r, f) ↦
      let down : descend db ws r (segments path) ≡ some start = rw (resolve, f) at h in
      rw (resolve_following, f)
        (ap (λ t. walk db ws true max_link_hops r t 0) (sym (append-nil (segments path)))
          ∙ walk-descend db ws true (segments path) max_link_hops r start [] 0 down
          ∙ walk-Chain db ws final k max_link_hops start _ e c)
]
