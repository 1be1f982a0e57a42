-- ===== src/Path/Parent.antt =====
-- `name`, `parent` and `join` of `VirtualPath` fit together.
use mathlib.Core.List.{reverse-append, reverse-reverse}
use fslite.Common.{
  ◌≡◌, refl, sym, ap, ◌∙◌, false, List, [], ◌∷◌, ◌++◌, reverse, append-nil, append_assoc, Text,
  has_byte, All, arith, none, some, length, get_last?-concat, take-length-append, length-append,
  ◌==◌, ◌<◌, All-last, All-init,
}
use fslite.Path.{
  VirtualPath, ok, slash, split, is_empty, starts_with_slash, normalize_onto, concat_segments,
  render, normalize, join, name, parent, rfind_slash,
}
use fslite.Path.Split.{IsSegment, split-plain, push-segment}
use fslite.Path.Canonical.{IsPathOf, normalize_onto-reverse, split-render, segments-IsPathOf}

rfind_slash-none : (s : Text) → has_byte slash s ≡ false → rfind_slash s ≡ none
unfolding rfind_slash
rfind_slash-none [] h = refl
rfind_slash-none (c ∷ s) h = ground (arith, rfind_slash-none s)

rfind_slash-append :
    (t s : Text) → has_byte slash s ≡ false → rfind_slash (t ++ slash ∷ s) ≡ some (length t)
unfolding rfind_slash
rfind_slash-append [] s h = rw (rfind_slash-none s h)
rfind_slash-append (c ∷ t) s h = rw (rfind_slash-append t s h)

concat_segments-concat :
    (ss : List Text) (x : Text) → concat_segments (ss ++ x ∷ []) ≡ concat_segments ss ++ slash ∷ x
unfolding concat_segments
concat_segments-concat [] x = rw append-nil
concat_segments-concat (s ∷ ss) x =
    ap (λ t. slash ∷ s ++ t) (concat_segments-concat ss x)
    ∙ sym (ap (λ t. slash ∷ t) (append_assoc s (concat_segments ss) (slash ∷ x)))

render-concat :
    (ss : List Text) (x : Text) → render (ss ++ x ∷ []) ≡ concat_segments ss ++ slash ∷ x
unfolding render
render-concat [] x = concat_segments-concat [] x
render-concat (s ∷ ss) x = concat_segments-concat (s ∷ ss) x

split-render-concat :
    (ss : List Text) (x : Text)
    → All IsSegment (ss ++ x ∷ [])
    → split (render (ss ++ x ∷ [])) ≡ [] ∷ ss ++ x ∷ []
split-render-concat [] x h = split-render x [] h
split-render-concat (s ∷ ss) x h = split-render s (ss ++ x ∷ []) h

length_pos : (x : Text) → is_empty x ≡ false → 0 < length x
unfolding is_empty
length_pos [] h = cc
length_pos (c ∷ cs) h = omega arith

-- A rendered path other than the root is longer than one byte.
length-render-concat :
    (ss : List Text) (x : Text) → IsSegment x → (length (render (ss ++ x ∷ [])) == 1) ≡ false
length-render-concat ss x g =
    rw (render-concat ss x, length-append (concat_segments ss) (slash ∷ x))
      (ground (arith, length_pos x g.not_empty))

-- Below the root, the name is the last segment.
pub name-concat :
    (ss : List Text) (x : Text)
    → All IsSegment (ss ++ x ∷ [])
    → name (record { canonical = render (ss ++ x ∷ []) }) ≡ some x
unfolding name
name-concat ss x h =
    rw (length-render-concat ss x (All-last IsSegment ss x h), split-render-concat ss x h)
      (get_last?-concat ([] ∷ ss) x)

parent-concat_segments :
    (ss : List Text) (x : Text)
    → IsSegment x
    → parent (record { canonical = concat_segments ss ++ slash ∷ x })
      ≡ some (record { canonical = render ss })
unfolding parent render concat_segments
parent-concat_segments [] x g =
    rw (rfind_slash-append [] x g.no_slash) (ground (arith, length_pos x g.not_empty))
parent-concat_segments (s ∷ ss) x g =
    rw
      (
        rfind_slash-append (concat_segments (s ∷ ss)) x g.no_slash,
        take-length-append (concat_segments (s ∷ ss)) (slash ∷ x),
      )
      (ground arith)

-- Below the root, the parent is the path of the segments before the last.
pub parent-concat :
    (ss : List Text) (x : Text)
    → All IsSegment (ss ++ x ∷ [])
    → parent (record { canonical = render (ss ++ x ∷ []) })
      ≡ some (record { canonical = render ss })
parent-concat ss x h =
    rw (render-concat ss x) (parent-concat_segments ss x (All-last IsSegment ss x h))

normalize_onto-concat :
    (ss : List Text) (x : Text)
    → IsSegment x
    → reverse (normalize_onto (reverse ss) (split x)) ≡ ss ++ x ∷ []
unfolding normalize_onto
normalize_onto-concat ss x g = rw (
  split-plain x g.no_slash,
  push-segment (reverse ss) x g,
  reverse-append (x ∷ []) (reverse ss),
  reverse-reverse,
)

starts_with_slash-segment : (x : Text) → IsSegment x → starts_with_slash x ≡ false
unfolding starts_with_slash
starts_with_slash-segment [] g = refl
starts_with_slash-segment (c ∷ cs) g = ground (arith, g.no_slash)

join-segment :
    (ss : List Text) (x : Text)
    → All IsSegment (ss ++ x ∷ [])
    → join (record { canonical = render ss }) x ≡ ok (record { canonical = render (ss ++ x ∷ []) })
unfolding join normalize
join-segment ss x h =
    let g = All-last IsSegment ss x h in
    let gs = All-init IsSegment ss x h in
    rw (
      starts_with_slash-segment x g,
      g.no_nul,
      segments-IsPathOf ss (record { canonical = render ss }) (gs, refl),
      normalize_onto-reverse ss (split x) gs,
      normalize_onto-concat ss x g,
    )

-- Of a canonical path below the root, the name is the last segment, the parent the path of the
-- others, and joining the two gives the path back.
pub name-parent-join :
    (ss : List Text) (x : Text) (p : VirtualPath)
    → IsPathOf (ss ++ x ∷ []) p
    → (q : VirtualPath) × (name p ≡ some x)
      × (parent p ≡ some q)
      × IsPathOf ss q
      × (join q x ≡ ok p)
name-parent-join ss x p (h, e) =
    let back : record { canonical = render (ss ++ x ∷ []) } ≡ p =
      ap (λ t. record { canonical = t }) (sym e) in
    (
      record { canonical = render ss },
      rw (← back) (name-concat ss x h),
      rw (← back) (parent-concat ss x h),
      (All-init IsSegment ss x h, refl),
      rw (← back) (join-segment ss x h),
    )
