-- ===== src/Path/Split.antt =====
-- What `split` makes of rendered segments, and what it never returns.
use mathlib.Core.List.{reverse-append}
use fslite.Common.{
  ℕ, ◌≡◌, refl, ap, ◌∙◌, false, List, [], ◌∷◌, ◌++◌, reverse, append-nil, append_assoc, Text, codes,
  text_eq, has_byte, All, arith, ◌||◌, ◌==◌, Bool-cases, or-eq-false, inl, inr,
}
use fslite.Path.{
  slash, nul, split, cons_head, pop, is_empty, push_segment, normalize_onto, concat_segments,
}

-- No separator and no NUL byte.
pub record IsPlain (s : Text) : Type 0 where
  pub no_slash : has_byte slash s ≡ false
  pub no_nul : has_byte nul s ≡ false

-- What a canonical path is made of.
pub record IsSegment (s : Text) : Type 0 where
  pub no_slash : has_byte slash s ≡ false
  pub no_nul : has_byte nul s ≡ false
  pub not_empty : is_empty s ≡ false
  pub not_dot : text_eq s (codes ".") ≡ false
  pub not_dots : text_eq s (codes "..") ≡ false

cons_head-IsPlain :
    (c : ℕ) (xs : List Text)
    → (c == slash) ≡ false
    → (c == nul) ≡ false
    → All IsPlain xs
    → All IsPlain (cons_head c xs)
unfolding cons_head
cons_head-IsPlain c [] p q h = (record { no_slash = rw p; no_nul = rw q }, tt)
cons_head-IsPlain c (x ∷ xs) p q (g, h) =
    (record { no_slash = rw p g.no_slash; no_nul = rw q g.no_nul }, h)

pub split-IsPlain : (t : Text) → has_byte nul t ≡ false → All IsPlain (split t)
unfolding split
split-IsPlain [] h = (record { no_slash = refl; no_nul = refl }, tt)
split-IsPlain (c ∷ cs) h =
    let (p, q) = or-eq-false (c == nul) (has_byte nul cs) h in
    let ih : All IsPlain (split cs) = split-IsPlain cs q in
    elim (Bool-cases (c == slash)) [
      | inl at_slash ↦ rw at_slash (record { no_slash = refl; no_nul = refl }, ih)
      | inr other ↦ rw other (cons_head-IsPlain c (split cs) other p ih)
    ]

pub split-plain : (s : Text) → has_byte slash s ≡ false → split s ≡ s ∷ []
unfolding split
split-plain [] h = refl
split-plain (c ∷ cs) h = ground (arith, split-plain cs)

pub split-append : (s t : Text) → has_byte slash s ≡ false → split (s ++ slash ∷ t) ≡ s ∷ split t
unfolding split
split-append [] t h = refl
split-append (c ∷ cs) t h = ground (arith, split-append cs t)

pub split-concat_segments :
    (s : Text) (rest : List Text)
    → has_byte slash s ≡ false
    → All IsSegment rest
    → split (s ++ concat_segments rest) ≡ s ∷ rest
unfolding concat_segments
split-concat_segments s [] p h = rw append-nil (split-plain s p)
split-concat_segments s (x ∷ xs) p (g, h) =
    split-append s (x ++ concat_segments xs) p
    ∙ ap (λ t. s ∷ t) (split-concat_segments x xs g.no_slash h)

pub push-segment : (acc : List Text) (s : Text) → IsSegment s → push_segment acc s ≡ s ∷ acc
unfolding push_segment
push-segment acc s g = ground arith

pop-IsSegment : (acc : List Text) → All IsSegment acc → All IsSegment (pop acc)
pop-IsSegment [] h = h
pop-IsSegment (x ∷ xs) (g, h) = h

pub push-IsSegment :
    (acc : List Text) (s : Text)
    → All IsSegment acc
    → IsPlain s
    → All IsSegment (push_segment acc s)
unfolding push_segment
push-IsSegment acc s h g = elim (Bool-cases (is_empty s || text_eq s (codes "."))) [
  | inl skip ↦ rw skip h
  | inr more ↦
      let (p, q) = or-eq-false (is_empty s) (text_eq s (codes ".")) more in
      elim (Bool-cases (text_eq s (codes ".."))) [
        | inl up ↦ rw (more, up) (pop-IsSegment acc h)
        | inr down ↦
            rw (more, down)
              (
                record {
                  no_slash = g.no_slash;
                  no_nul = g.no_nul;
                  not_empty = p;
                  not_dot = q;
                  not_dots = down;
                },
                h,
              )
      ]
]

pub normalize_onto-IsSegment :
    (acc ss : List Text)
    → All IsSegment acc
    → All IsPlain ss
    → All IsSegment (normalize_onto acc ss)
unfolding normalize_onto
normalize_onto-IsSegment acc [] h g = h
normalize_onto-IsSegment acc (s ∷ ss) h (g, gs) =
    normalize_onto-IsSegment (push_segment acc s) ss (push-IsSegment acc s h g) gs

pub normalize_onto-append :
    (acc xs ys : List Text)
    → normalize_onto acc (xs ++ ys) ≡ normalize_onto (normalize_onto acc xs) ys
unfolding normalize_onto
normalize_onto-append acc [] ys = refl
normalize_onto-append acc (x ∷ xs) ys = normalize_onto-append (push_segment acc x) xs ys

-- Segments are pushed as they are.
pub normalize_onto-segments :
    (acc ss : List Text) → All IsSegment ss → normalize_onto acc ss ≡ reverse ss ++ acc
unfolding normalize_onto
normalize_onto-segments acc [] h = refl
normalize_onto-segments acc (s ∷ ss) (g, gs) =
    rw (push-segment acc s g, reverse-append (s ∷ []) ss, append_assoc)
      (normalize_onto-segments (s ∷ acc) ss gs)
