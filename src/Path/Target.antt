-- ===== src/Path/Target.antt =====
-- `LinkTarget::parse` is idempotent on its own output.
use mathlib.Core.List.{reverse-append}
use fslite.Common.{
  ◌≡◌, refl, ap, ◌∙◌, Bool, true, false, ◌||◌, ◌&&◌, not, List, [], ◌∷◌, ◌++◌, reverse, Text,
  text_eq, codes, has_byte, All, All-reverse, arith, inl, inr, Bool-cases, or-eq-false,
  if◌then◌else◌,
}
use fslite.Path.{
  LinkTarget, ok, slash, nul, split, is_empty, starts_with_slash, concat_segments, render,
  normalize, push_relative, normalize_relative_onto, join_slash, render_relative,
  normalize_relative, parse_target,
}
use fslite.Path.Split.{IsPlain, IsSegment, split-IsPlain, split-plain, split-append}
use fslite.Path.Canonical.{
  normalize-IsPathOf, normalize-split-render, nul-render, has_byte-append, starts_with_slash-render,
}

pub record IsElement (s : Text) : Type 0 where
  pub no_slash : has_byte slash s ≡ false
  pub no_nul : has_byte nul s ≡ false
  pub not_empty : is_empty s ≡ false
  pub not_dot : text_eq s (codes ".") ≡ false

-- ".." stands at the bottom or on another ".."
abbrev rests_on : Text → List Text → Bool
rests_on s [] = true
rests_on s (last ∷ below) = not (text_eq s (codes "..")) || text_eq last (codes "..")

-- The vector of `normalize_relative`, last element first.
abbrev IsStack : List Text → Type 0
IsStack [] = Unit
IsStack (s ∷ below) = IsElement s × (rests_on s below ≡ true) × IsStack below

-- An element of the stack, pushed again, goes where it was.
push-element :
    (s : Text) (below : List Text)
    → IsElement s
    → rests_on s below ≡ true
    → push_relative below s ≡ s ∷ below
unfolding push_relative
push-element s [] g h = ground arith
push-element s (last ∷ below) g h = ground arith

as-IsElement : {s : Text} → IsPlain s → (is_empty s || text_eq s (codes ".")) ≡ false → IsElement s
as-IsElement {s} g h =
    let (p, q) = or-eq-false (is_empty s) (text_eq s (codes ".")) h in
    record { no_slash = g.no_slash; no_nul = g.no_nul; not_empty = p; not_dot = q }

push_skip :
    (s : Text) (acc : List Text)
    → (is_empty s || text_eq s (codes ".")) ≡ true
    → IsStack acc
    → IsStack (push_relative acc s)
unfolding push_relative
push_skip s [] e h = rw e h
push_skip s (last ∷ below) e h = rw e h

push_more : (s : Text) (acc : List Text) → IsElement s → IsStack acc → IsStack (push_relative acc s)
unfolding push_relative
push_more s [] g h = rw (g.not_empty, g.not_dot) (g, refl, tt)
push_more s (last ∷ below) g (gl, hl, h) =
    rw (g.not_empty, g.not_dot)
      (elim (Bool-cases (text_eq s (codes "..") && not (text_eq last (codes "..")))) [
        | inl pops ↦ rw pops h
        | inr pushes ↦ rw pushes (g, ground arith, (gl, hl, h))
      ])

push-IsStack :
    (s : Text) (acc : List Text) → IsStack acc → IsPlain s → IsStack (push_relative acc s)
push-IsStack s acc h g = elim (Bool-cases (is_empty s || text_eq s (codes "."))) [
  | inl skip ↦ push_skip s acc skip h
  | inr more ↦ push_more s acc (as-IsElement g more) h
]

normalize_relative_onto-append :
    (acc xs ys : List Text)
    → normalize_relative_onto acc (xs ++ ys)
      ≡ normalize_relative_onto (normalize_relative_onto acc xs) ys
unfolding normalize_relative_onto
normalize_relative_onto-append acc [] ys = refl
normalize_relative_onto-append acc (x ∷ xs) ys =
    normalize_relative_onto-append (push_relative acc x) xs ys

normalize_relative_onto-IsStack :
    (acc ss : List Text) → IsStack acc → All IsPlain ss → IsStack (normalize_relative_onto acc ss)
unfolding normalize_relative_onto
normalize_relative_onto-IsStack acc [] h g = h
normalize_relative_onto-IsStack acc (s ∷ ss) h (g, gs) =
    normalize_relative_onto-IsStack (push_relative acc s) ss (push-IsStack s acc h g) gs

-- The normalized vector, fed in again, is built again.
normalize_relative_onto-reverse :
    (st : List Text) → IsStack st → normalize_relative_onto [] (reverse st) ≡ st
unfolding normalize_relative_onto
normalize_relative_onto-reverse [] h = refl
normalize_relative_onto-reverse (s ∷ below) (g, r, h) =
    rw
      (
        reverse-append (s ∷ []) below,
        normalize_relative_onto-append [] (reverse below) (s ∷ []),
        normalize_relative_onto-reverse below h,
      )
      (push-element s below g r)

IsStack-IsElement : (st : List Text) → IsStack st → All IsElement st
IsStack-IsElement [] h = tt
IsStack-IsElement (s ∷ st) (g, r, h) = (g, IsStack-IsElement st h)

split-join_slash :
    (x : Text) (xs : List Text) → All IsElement (x ∷ xs) → split (join_slash (x ∷ xs)) ≡ x ∷ xs
unfolding join_slash
split-join_slash x [] (g, gs) = split-plain x g.no_slash
split-join_slash x (y ∷ ys) (g, gs) =
    split-append x (join_slash (y ∷ ys)) g.no_slash ∙ ap (λ t. x ∷ t) (split-join_slash y ys gs)

nul-join_slash :
    (x : Text) (xs : List Text)
    → All IsElement (x ∷ xs)
    → has_byte nul (join_slash (x ∷ xs)) ≡ false
unfolding join_slash
nul-join_slash x [] (g, gs) = g.no_nul
nul-join_slash x (y ∷ ys) (g, gs) =
    rw (has_byte-append nul x (slash ∷ join_slash (y ∷ ys)), g.no_nul) (nul-join_slash y ys gs)

-- the text begins with its first element, which is not empty and holds no separator
starts :
    (x : Text) (xs : List Text)
    → IsElement x
    → (is_empty (join_slash (x ∷ xs)) ≡ false) × (starts_with_slash (join_slash (x ∷ xs)) ≡ false)
unfolding join_slash is_empty starts_with_slash
starts [] xs g = cc g.not_empty
starts (c ∷ cs) [] g = (refl, ground (arith, g.no_slash))
starts (c ∷ cs) (y ∷ ys) g = (refl, ground (arith, g.no_slash))

target_dot : parse_target (codes ".") ≡ ok (record { canonical = codes "." })
unfolding parse_target is_empty starts_with_slash split normalize_relative normalize_relative_onto
    push_relative render_relative
target_dot = refl

target_again :
    (l : List Text)
    → All IsElement l
    → reverse (normalize_relative_onto [] l) ≡ l
    → parse_target (render_relative l) ≡ ok (record { canonical = render_relative l })
unfolding parse_target render_relative normalize_relative
target_again [] h e = target_dot
target_again (x ∷ xs) (g, gs) e = rw (
  (starts x xs g).0,
  nul-join_slash x xs (g, gs),
  (starts x xs g).1,
  split-join_slash x xs (g, gs),
  e,
)

is_empty-render : (ss : List Text) → is_empty (render ss) ≡ false
unfolding is_empty render concat_segments
is_empty-render [] = refl
is_empty-render (s ∷ ss) = refl

target_absolute :
    (ss : List Text)
    → All IsSegment ss
    → parse_target (render ss) ≡ ok (record { canonical = render ss })
unfolding parse_target
target_absolute ss h =
    rw (
      is_empty-render ss,
      nul-render ss h,
      starts_with_slash-render ss,
      normalize-split-render ss h,
    )

target_of_absolute :
    (input : Text)
    → has_byte nul input ≡ false
    → parse_target (normalize (split input)) ≡ ok (record { canonical = normalize (split input) })
target_of_absolute input h =
    let (g, e) = normalize-IsPathOf (split input) (split-IsPlain input h) in
    rw e (target_absolute _ g)

target_of_relative :
    (input : Text)
    → has_byte nul input ≡ false
    → parse_target (normalize_relative (split input))
      ≡ ok (record { canonical = normalize_relative (split input) })
unfolding normalize_relative
target_of_relative input h =
    let st = normalize_relative_onto [] (split input) in
    let g : IsStack st =
      normalize_relative_onto-IsStack [] (split input) tt (split-IsPlain input h) in
    target_again (reverse st) (All-reverse IsElement st (IsStack-IsElement st g))
      (ap reverse (normalize_relative_onto-reverse st g))

ok-injective : {a b : LinkTarget} → ok a ≡ ok b → a ≡ b
ok-injective e = cc

-- the text of an accepted target, by its first byte
accepted_text : Text → Text
accepted_text input =
    if starts_with_slash input then normalize (split input) else normalize_relative (split input)

accepted :
    (input : Text) (t : LinkTarget)
    → parse_target input ≡ ok t
    → (has_byte nul input ≡ false) × (record { canonical = accepted_text input } ≡ t)
unfolding parse_target accepted_text
accepted input t h = elim (Bool-cases (is_empty input || has_byte nul input)) [
  | inl bad ↦ cc (rw bad at h)
  | inr good ↦
      ((or-eq-false (is_empty input) (has_byte nul input) good).1, ok-injective (rw good at h))
]

accepted_again :
    (input : Text)
    → has_byte nul input ≡ false
    → parse_target (accepted_text input) ≡ ok (record { canonical = accepted_text input })
unfolding accepted_text
accepted_again input h = elim (Bool-cases (starts_with_slash input)) [
  | inl absolute ↦ rw absolute (target_of_absolute input h)
  | inr relative ↦ rw relative (target_of_relative input h)
]

-- A parsed link target is its own normal form, absolute or relative: parsing its text gives it
-- back, leading ".." segments included.
pub parse_target-canonical :
    (input : Text) (t : LinkTarget) → parse_target input ≡ ok t → parse_target t.canonical ≡ ok t
parse_target-canonical input t h =
    let (no_nul, e) = accepted input t h in rw (← e) (accepted_again input no_nul)
