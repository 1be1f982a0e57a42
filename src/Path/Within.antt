-- ===== src/Path/Within.antt =====
-- `is_same_or_descendant` compares texts; it decides the prefix order on segments.
use fslite.Common.{
  ◌≡◌, refl, sym, ap, ◌∙◌, ◌↔◌, true, false, List, [], ◌∷◌, ◌++◌, append-nil, append_assoc, Text,
  text_eq, text_eq_refl, text_eq_eq, codes, All, arith, inl, inr, Bool-cases, and-eq-true, ◌==◌,
  if◌then◌else◌,
}
use fslite.Path.{
  VirtualPath, slash, split, is_empty, concat_segments, render, segments, starts_with,
  is_same_or_descendant,
}
use fslite.Path.Split.{IsSegment}
use fslite.Path.Canonical.{IsPathOf, split-render, segments-render, split-concat-append}

-- `b` goes on from `a`.
abbrev pub IsPrefixOf : List Text → List Text → Type 0
IsPrefixOf a b = (rest : List Text) × (b ≡ a ++ rest)

starts_with-append : (t p : Text) → starts_with (p ++ t) p ≡ true
starts_with-append t [] = refl
starts_with-append t (c ∷ p) = ground (arith, starts_with-append t p)

starts_with-rest : (t p : Text) → starts_with t p ≡ true → (r : Text) × (t ≡ p ++ r)
starts_with-rest t [] h = (t, refl)
starts_with-rest [] (c ∷ p) h = cc
starts_with-rest (b ∷ t) (c ∷ p) h =
    let (e, more) = and-eq-true (b == c) (starts_with t p) h in
    let (r, rest) = starts_with-rest t p more in (r, ground arith)

concat_segments-append :
    (a b : List Text) → concat_segments (a ++ b) ≡ concat_segments a ++ concat_segments b
unfolding concat_segments
concat_segments-append [] b = refl
concat_segments-append (s ∷ a) b = rw (concat_segments-append a b, append_assoc)

render-injective :
    (a b : List Text) → All IsSegment a → All IsSegment b → render a ≡ render b → a ≡ b
render-injective a b ga gb e =
    sym (segments-render a ga)
    ∙ ap (λ t. segments (record { canonical = t })) e
    ∙ segments-render b gb

tail_eq :
    (a : List Text) (s : Text) (b : List Text)
    → ◌≡◌ {A = List Text} ([] ∷ b) ([] ∷ s ∷ a)
    → b ≡ s ∷ a
tail_eq a s b e = cc

first_eq : (s : Text) (a : List Text) → ◌≡◌ {A = List Text} ([] ∷ [] ∷ []) ([] ∷ s ∷ a) → s ≡ []
first_eq s a e = cc

is_empty-nil : is_empty [] ≡ true
unfolding is_empty
is_empty-nil = refl

split-root : split (render []) ≡ [] ∷ [] ∷ []
unfolding split render
split-root = refl

split-render-append :
    (s : Text) (a : List Text) (r : Text)
    → All IsSegment (s ∷ a)
    → split (render (s ∷ a) ++ slash ∷ r) ≡ [] ∷ s ∷ a ++ split r
unfolding render concat_segments split
split-render-append s a r h = ap (λ t. [] ∷ t) (split-concat-append s a r h)

-- the separator after `a` is inside the rendering of `b`
prefix_of_text :
    (s : Text) (a b : List Text) (r : Text)
    → All IsSegment (s ∷ a)
    → All IsSegment b
    → render b ≡ render (s ∷ a) ++ slash ∷ r
    → b ≡ s ∷ a ++ split r
prefix_of_text s a [] r (g, ga) gb e =
    let e' : ◌≡◌ {A = List Text} ([] ∷ [] ∷ []) ([] ∷ s ∷ a ++ split r) =
      sym split-root ∙ ap split e ∙ split-render-append s a r (g, ga) in
    cc (g.not_empty, first_eq s (a ++ split r) e', is_empty-nil)
prefix_of_text s a (t ∷ b) r ga gb e =
    tail_eq (a ++ split r) s (t ∷ b)
      (sym (split-render t b gb) ∙ ap split e ∙ split-render-append s a r ga)

not_root : (s : Text) (a : List Text) → IsSegment s → text_eq (render (s ∷ a)) (codes "/") ≡ false
unfolding render concat_segments is_empty
not_root [] a g = cc g.not_empty
not_root (c ∷ s) a g = refl

below_eq :
    (s : Text) (a : List Text) (x : Text) (rest : List Text)
    → s ++ concat_segments (a ++ x ∷ rest)
      ≡ ((s ++ concat_segments a) ++ slash ∷ []) ++ (x ++ concat_segments rest)
unfolding concat_segments
below_eq s a x rest = rw (concat_segments-append a (x ∷ rest)) (simp append_assoc)

below :
    (s : Text) (a : List Text) (x : Text) (rest : List Text)
    → starts_with (s ++ concat_segments (a ++ x ∷ rest)) ((s ++ concat_segments a) ++ slash ∷ [])
      ≡ true
below s a x rest =
    rw (below_eq s a x rest)
      (starts_with-append (x ++ concat_segments rest) ((s ++ concat_segments a) ++ slash ∷ []))

within_of_prefix :
    (a rest : List Text)
    → All IsSegment a
    → is_same_or_descendant
        (record { canonical = render a })
        (record { canonical = render (a ++ rest) })
      ≡ true
unfolding is_same_or_descendant render concat_segments
within_of_prefix [] [] ga = refl
within_of_prefix [] (x ∷ rest) ga = ground arith
within_of_prefix (s ∷ a) [] ga = rw (append-nil, text_eq_refl (render (s ∷ a)))
within_of_prefix (s ∷ a) (x ∷ rest) (g, ga) =
    elim (Bool-cases (text_eq (render (s ∷ a ++ x ∷ rest)) (render (s ∷ a)))) [
      | inl same ↦ rw same
      | inr longer ↦ rw (longer, not_root s a g) (below s a x rest)
    ]

IsPrefixOf-prefix :
    (a b : List Text)
    → All IsSegment a
    → All IsSegment b
    → starts_with
        (render b)
        (if text_eq (render a) (codes "/") then codes "/" else render a ++ slash ∷ [])
      ≡ true
    → IsPrefixOf a b
IsPrefixOf-prefix [] b ga gb h = (b, refl)
IsPrefixOf-prefix (s ∷ a) b (g, ga) gb h =
    let (r, e) =
      starts_with-rest (render b) (render (s ∷ a) ++ slash ∷ []) (rw (not_root s a g) at h) in
    (split r, prefix_of_text s a b r (g, ga) gb (e ∙ append_assoc (render (s ∷ a)) (slash ∷ []) r))

IsPrefixOf-within :
    (a b : List Text)
    → All IsSegment a
    → All IsSegment b
    → is_same_or_descendant (record { canonical = render a }) (record { canonical = render b })
      ≡ true
    → IsPrefixOf a b
unfolding is_same_or_descendant
IsPrefixOf-within a b ga gb h = elim (Bool-cases (text_eq (render b) (render a))) [
  | inl same ↦
      ([], render-injective b a gb ga (text_eq_eq (render b) (render a) same) ∙ sym (append-nil a))
  | inr differ ↦ IsPrefixOf-prefix a b ga gb (rw differ at h)
]

-- Of canonical paths, one is the other or below it exactly when its segments go on from the
-- other's: the test does not take "/ab" to be below "/a".
pub is_same_or_descendant_iff :
    (a b : List Text) (p q : VirtualPath)
    → IsPathOf a p
    → IsPathOf b q
    → (is_same_or_descendant p q ≡ true) ↔ IsPrefixOf a b
is_same_or_descendant_iff a b p q (ga, ea) (gb, eb) = (
  λ h. IsPrefixOf-within a b ga gb (rw (← ea, ← eb) h),
  λ (rest, e). rw (ea, eb, e) (within_of_prefix a rest ga),
)
