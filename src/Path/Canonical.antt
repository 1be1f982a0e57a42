-- ===== src/Path/Canonical.antt =====
-- The canonical form of a `VirtualPath`, and what the operations do to it.
use mathlib.Core.List.{reverse-reverse}
use fslite.Common.{
  ℕ, ◌≡◌, refl, sym, ap, ◌∙◌, true, false, ◌||◌, not, List, [], ◌∷◌, ◌++◌, reverse, append-nil,
  append_assoc, Text, has_byte, All, All-append, All-reverse, arith, Bool-cases, inl, inr,
}
use fslite.Path.{
  VirtualPath, ok, slash, nul, split, is_empty, starts_with_slash, push_segment, normalize_onto,
  concat_segments, render, normalize, parse, segments, drop_empty, join,
}
use fslite.Path.Split.{
  IsPlain, IsSegment, split-IsPlain, split-concat_segments, split-append, normalize_onto-IsSegment,
  normalize_onto-segments, normalize_onto-append,
}

-- The path is the rendering of segments that hold no separator and are not "", "." or "..".
abbrev pub IsPathOf : List Text → VirtualPath → Type 0
IsPathOf ss p = All IsSegment ss × (p.canonical ≡ render ss)

abbrev pub IsCanonical : VirtualPath → Type 0
IsCanonical p = (ss : List Text) × IsPathOf ss p

ok-injective : {A : Type 0} {a b : A} → ok a ≡ ok b → a ≡ b
ok-injective e = cc

pub normalize-IsPathOf :
    (ss : List Text)
    → All IsPlain ss
    → IsPathOf (reverse (normalize_onto [] ss)) (record { canonical = normalize ss })
unfolding normalize
normalize-IsPathOf ss h =
    (All-reverse IsSegment (normalize_onto [] ss) (normalize_onto-IsSegment [] ss tt h), refl)

-- Whatever text is accepted, the path is canonical.
pub parse-IsCanonical : (input : Text) (p : VirtualPath) → parse input ≡ ok p → IsCanonical p
unfolding parse
parse-IsCanonical input p h =
    elim (Bool-cases (not (starts_with_slash input) || has_byte nul input)) [
      | inl bad ↦ cc (rw bad at h)
      | inr good ↦
          let e : ok (record { canonical = normalize (split input) }) ≡ ok p = rw good at h in
          rw (← ok-injective e)
            (_, normalize-IsPathOf (split input) (split-IsPlain input (ground arith)))
    ]

pub split-render :
    (s : Text) (ss : List Text) → All IsSegment (s ∷ ss) → split (render (s ∷ ss)) ≡ [] ∷ s ∷ ss
unfolding render concat_segments split
split-render s ss (g, gs) = ap (λ t. [] ∷ t) (split-concat_segments s ss g.no_slash gs)

pub normalize-segments : (ss : List Text) → All IsSegment ss → normalize ss ≡ render ss
unfolding normalize
normalize-segments ss h = rw (normalize_onto-segments [] ss h, append-nil, reverse-reverse)

drop_empty-segments : (ss : List Text) → All IsSegment ss → drop_empty ss ≡ ss
drop_empty-segments [] h = refl
drop_empty-segments (s ∷ ss) (g, gs) = rw (g.not_empty, drop_empty-segments ss gs)

pub segments-render :
    (ss : List Text) → All IsSegment ss → segments (record { canonical = render ss }) ≡ ss
unfolding segments render concat_segments split is_empty
segments-render [] h = refl
segments-render (s ∷ ss) (g, gs) =
    rw (split-concat_segments s ss g.no_slash gs) (drop_empty-segments (s ∷ ss) (g, gs))

pub has_byte-append : (b : ℕ) (s t : Text) → has_byte b (s ++ t) ≡ (has_byte b s || has_byte b t)
has_byte-append b [] t = refl
has_byte-append b (c ∷ s) t = ground (arith, has_byte-append b s t)

nul-concat_segments :
    (ss : List Text) → All IsSegment ss → has_byte nul (concat_segments ss) ≡ false
unfolding concat_segments
nul-concat_segments [] h = refl
nul-concat_segments (s ∷ ss) (g, gs) =
    rw (has_byte-append nul s (concat_segments ss), g.no_nul) (nul-concat_segments ss gs)

normalize-cons_nil : (ss : List Text) → normalize ([] ∷ ss) ≡ normalize ss
unfolding normalize normalize_onto push_segment is_empty
normalize-cons_nil ss = refl

pub starts_with_slash-render : (ss : List Text) → starts_with_slash (render ss) ≡ true
unfolding starts_with_slash render concat_segments
starts_with_slash-render [] = refl
starts_with_slash-render (s ∷ ss) = refl

pub nul-render : (ss : List Text) → All IsSegment ss → has_byte nul (render ss) ≡ false
unfolding render concat_segments
nul-render [] h = refl
nul-render (s ∷ ss) h = nul-concat_segments (s ∷ ss) h

pub normalize-split-render :
    (ss : List Text) → All IsSegment ss → normalize (split (render ss)) ≡ render ss
normalize-split-render [] h =
    unfold normalize normalize_onto push_segment is_empty split render in refl
normalize-split-render (s ∷ ss) h =
    rw (split-render s ss h, normalize-cons_nil) (normalize-segments (s ∷ ss) h)

pub parse-render :
    (ss : List Text) → All IsSegment ss → parse (render ss) ≡ ok (record { canonical = render ss })
unfolding parse
parse-render ss h = rw (starts_with_slash-render ss, nul-render ss h, normalize-split-render ss h)

-- Parsing a canonical path's own text gives the path back.
pub parse-canonical : (p : VirtualPath) → IsCanonical p → parse p.canonical ≡ ok p
parse-canonical p (ss, (h, e)) =
    rw e (parse-render ss h) ∙ ap (λ t. ok (record { canonical = t })) (sym e)

pub segments-IsPathOf : (ss : List Text) (p : VirtualPath) → IsPathOf ss p → segments p ≡ ss
segments-IsPathOf ss p (h, e) =
    ap (λ t. segments (record { canonical = t })) e ∙ segments-render ss h

pub split-concat-append :
    (s : Text) (rest : List Text) (r : Text)
    → All IsSegment (s ∷ rest)
    → split ((s ++ concat_segments rest) ++ slash ∷ r) ≡ (s ∷ rest) ++ split r
unfolding concat_segments
split-concat-append s [] r (g, gs) = rw append-nil (split-append s r g.no_slash)
split-concat-append s (x ∷ xs) r (g, gs) =
    rw (append_assoc s (slash ∷ x ++ concat_segments xs) (slash ∷ r)) (
      split-append s ((x ++ concat_segments xs) ++ slash ∷ r) g.no_slash
      ∙ ap (λ t. s ∷ t) (split-concat-append x xs r gs))

normalize-split-append :
    (ss : List Text) (r : Text)
    → All IsSegment ss
    → normalize (split (render ss ++ slash ∷ r)) ≡ normalize (ss ++ split r)
unfolding render concat_segments split
normalize-split-append [] r h = normalize-cons_nil ([] ∷ split r) ∙ normalize-cons_nil (split r)
normalize-split-append (s ∷ ss) r h =
    rw (split-concat-append s ss r h) (normalize-cons_nil ((s ∷ ss) ++ split r))

starts_with_slash-render-append :
    (ss : List Text) (r : Text) → starts_with_slash (render ss ++ slash ∷ r) ≡ true
unfolding starts_with_slash render concat_segments
starts_with_slash-render-append [] r = refl
starts_with_slash-render-append (s ∷ ss) r = refl

-- Joining is parsing the base's text, '/' and the relative text.
pub join-parse :
    (p : VirtualPath) (relative : Text)
    → IsCanonical p
    → starts_with_slash relative ≡ false
    → has_byte nul relative ≡ false
    → join p relative ≡ parse (p.canonical ++ slash ∷ relative)
unfolding join parse
join-parse p relative (ss, (h, e)) at_start no_nul = rw (
  at_start,
  no_nul,
  segments-IsPathOf ss p (h, e),
  e,
  starts_with_slash-render-append ss relative,
  has_byte-append nul (render ss) (slash ∷ relative),
  nul-render ss h,
  no_nul,
  normalize-split-append ss relative h,
)

All-IsPlain : (ss : List Text) → All IsSegment ss → All IsPlain ss
All-IsPlain [] h = tt
All-IsPlain (s ∷ ss) (g, gs) =
    (record { no_slash = g.no_slash; no_nul = g.no_nul }, All-IsPlain ss gs)

pub normalize_onto-reverse :
    (ss xs : List Text)
    → All IsSegment ss
    → normalize_onto [] (ss ++ xs) ≡ normalize_onto (reverse ss) xs
normalize_onto-reverse ss xs h =
    rw (normalize_onto-append [] ss xs, normalize_onto-segments [] ss h, append-nil)

-- Joining never leaves the root: the result is canonical, whatever ".." the relative text holds.
pub join-IsPathOf :
    (ss : List Text) (p q : VirtualPath) (relative : Text)
    → IsPathOf ss p
    → join p relative ≡ ok q
    → IsPathOf (reverse (normalize_onto (reverse ss) (split relative))) q
unfolding join
join-IsPathOf ss p q relative (h, e) joined =
    elim (Bool-cases (starts_with_slash relative || has_byte nul relative)) [
      | inl bad ↦ cc (rw bad at joined)
      | inr good ↦
          let e' : ok (record { canonical = normalize (segments p ++ split relative) }) ≡ ok q =
            rw good at joined in
          let whole : IsPathOf (reverse (normalize_onto [] (ss ++ split relative)))
              (record { canonical = normalize (ss ++ split relative) }) =
            normalize-IsPathOf (ss ++ split relative) (
              All-append IsPlain ss (split relative) (All-IsPlain ss h)
                (split-IsPlain relative (ground arith))) in
          rw
            (
              ← ok-injective e',
              segments-IsPathOf ss p (h, e),
              ← normalize_onto-reverse ss (split relative) h,
            )
            whole
    ]
