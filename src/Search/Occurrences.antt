-- ===== src/Search/Occurrences.antt =====
-- The places of a needle in a text that is searched in pieces, of crates/fslite-sqlite/src/search.rs.
use mathlib.Core.List.{map}
use fslite.Common.{
  ℕ, suc, ◌+◌, ◌≤◌, ◌<◌, ◌≡◌, refl, ap, ◌∙◌, false, ◌&&◌, [], ◌∷◌, ◌++◌, Text, length,
  length-append, inl, inr, ◌⊎◌, Bool-cases, ◌==◌, arith,
}
use package.fslite.Search.Contents.{starts_with, occurrences}

starts_with-append :
    (needle text rest : Text)
    → length needle ≤ length text
    → starts_with needle (text ++ rest) ≡ starts_with needle text
unfolding starts_with
starts_with-append [] text rest h = refl
starts_with-append (n ∷ needle) [] rest h = absurd (omega arith)
starts_with-append (n ∷ needle) (t ∷ text) rest h =
    ap (λ b. n == t && b) (starts_with-append needle text rest (omega arith))

starts_with-short :
    (needle text : Text) → length text < length needle → starts_with needle text ≡ false
unfolding starts_with
starts_with-short [] text h = absurd (omega arith)
starts_with-short (n ∷ needle) [] h = refl
starts_with-short (n ∷ needle) (t ∷ text) h =
    rw (starts_with-short needle text (omega arith)) (ground arith)

-- too short for the needle
pub occurrences-short :
    (needle : Text) (start : ℕ) (text : Text)
    → length text < length needle
    → occurrences needle start text ≡ []
unfolding occurrences
occurrences-short needle start [] h = refl
occurrences-short needle start (t ∷ text) h =
    rw (starts_with-short needle (t ∷ text) h)
      (occurrences-short needle (suc start) text (omega arith))

-- The places that start in the first part do not reach beyond the middle one, and none lies in the
-- middle one alone.
pub occurrences-append :
    (needle first : Text) (start : ℕ) (middle rest : Text)
    → length middle < length needle
    → (first ≡ []) ⊎ (length needle ≤ suc (length middle))
    → occurrences needle start (first ++ middle ++ rest)
      ≡ occurrences needle start (first ++ middle)
        ++ occurrences needle (start + length first) (middle ++ rest)
unfolding occurrences
occurrences-append needle [] start middle rest short reach =
    rw (occurrences-short needle start middle short)
      (ap (λ s. occurrences needle s (middle ++ rest)) (omega arith))
occurrences-append needle (f ∷ first) start middle rest short (inl e) = cc
occurrences-append needle (f ∷ first) start middle rest short (inr reach) =
    let size = length-append first middle in
    let here = starts_with-append needle (f ∷ first ++ middle) rest (omega arith) in
    let behind =
      occurrences-append needle first (suc start) middle rest short (inr reach)
      ∙ ap
          (λ s.
            occurrences needle (suc start) (first ++ middle)
            ++ occurrences needle s (middle ++ rest))
          {x = suc start + length first} {y = start + suc (length first)} (omega arith) in
    elim (Bool-cases (starts_with needle (f ∷ first ++ middle))) [
      | inl e ↦ rw (occurrences, here, e) (ap (λ l. start ∷ l) behind)
      | inr e ↦ rw (occurrences, here, e) behind
    ]

pub occurrences-map :
    (needle : Text) (base start : ℕ) (text : Text)
    → map (λ s. base + s) (occurrences needle start text) ≡ occurrences needle (base + start) text
unfolding occurrences
occurrences-map needle base start [] = refl
occurrences-map needle base start (t ∷ text) =
    let next =
      occurrences-map needle base (suc start) text
      ∙ ap (λ s. occurrences needle s text) {x = base + suc start} {y = suc (base + start)}
          (omega arith) in
    elim (Bool-cases (starts_with needle (t ∷ text))) [
      | inl e ↦ rw (occurrences, e) (ap (λ l. (base + start) ∷ l) next)
      | inr e ↦ rw (occurrences, e) next
    ]
