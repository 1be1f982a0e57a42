-- ===== src/Search/Wildcard.antt =====
-- `wildcard_match` of crates/fslite-sqlite/src/search.rs and what a wildcard stands for.
use fslite.Common.{
  ℕ, zero, suc, ◌+◌, ◌*◌, ◌≤◌, ◌<◌, ◌≡◌, refl, sym, subst, ◌↔◌, Bool, true, false, ◌&&◌, ◌||◌,
  Option, none, some, [], ◌∷◌, Text, has_byte, length, ◌==◌, ==_eq, inl, inr, Bool-cases, arith,
  or-eq-false, and-eq-true,
}
use package.fslite.Search.{
  star, question, Resume, only_stars, resume, wildcard_loop, wildcard_match,
}

-- '*' stands for any characters, also none, '?' for one, and every other character for itself.
pub data Fits : Text → Text → Type 0 where
  empty : Fits [] []
  one : {x c : ℕ} {p t : Text} → (x == question || x == c) ≡ true → Fits p t → Fits (x ∷ p) (c ∷ t)
  leave : {x : ℕ} {p t : Text} → (x == star) ≡ true → Fits p t → Fits (x ∷ p) t
  take : {x c : ℕ} {p t : Text} → (x == star) ≡ true → Fits (x ∷ p) t → Fits (x ∷ p) (c ∷ t)

-- Some character under the star is one that the star takes.
module _ {p : Text} where
  star_at_end : Fits (star ∷ p) [] → Fits p []
  star_at_end (leave h d) = d

  -- a character that is no star stands for one
  only_one :
      {x c : ℕ} {t : Text}
      → (x == star) ≡ false
      → Fits (x ∷ p) (c ∷ t)
      → ((x == question || x == c) ≡ true) × Fits p t
  only_one n (one h d) = (h, d)
  only_one n (leave h d) = cc
  only_one n (take h d) = cc

  -- a star that does not end here takes the next character, be that a star as well
  must_take : {c : ℕ} {t : Text} → Fits (star ∷ p) (c ∷ t) → ¬ Fits p (c ∷ t) → Fits (star ∷ p) t
  must_take (one h d) n = leave refl d
  must_take (leave h d) n = absurd (n d)
  must_take (take h d) n = d

  is_star : {x : ℕ} {t : Text} → (x == star) ≡ true → Fits (x ∷ p) t → Fits (star ∷ p) t
  is_star {x} {t} e d = subst (λ y. Fits (y ∷ p) t) (==_eq x star e) d

  two_stars : {x : ℕ} {t : Text} → (x == star) ≡ true → Fits (star ∷ x ∷ p) t → Fits (star ∷ p) t
  two_stars e (leave h d) = is_star e d
  two_stars e (take h d) = take h (two_stars e d)
  two_stars e (one h d) = take refl (is_star e d)

  nothing_left : {x : ℕ} → (x == star) ≡ false → ¬ Fits (x ∷ p) []
  nothing_left n (leave h d) = cc

-- what a star and one character match, the star matches by itself
star_alone :
    {x : ℕ} {p : Text} (t : Text) → (x == star) ≡ false → Fits (star ∷ x ∷ p) t → Fits (star ∷ p) t
star_alone [] n (leave h d) = absurd (nothing_left n d)
star_alone (c ∷ t) n (leave h d) = take refl (leave refl (only_one n d).1)
star_alone (c ∷ t) n (take h d) = take refl (star_alone t n d)
star_alone (c ∷ t) n (one h d) = take refl (star_alone t n (leave refl d))

-- the star takes what stood before the character, and the character with it
drop_one :
    {x c : ℕ} {p : Text} (t : Text)
    → (x == star) ≡ false
    → Fits (star ∷ x ∷ p) (c ∷ t)
    → Fits (star ∷ p) t
drop_one t n (leave h d) = leave refl (only_one n d).1
drop_one t n (take h d) = star_alone t n d
drop_one t n (one h d) = star_alone t n (leave refl d)

only_stars_iff : (p : Text) → (only_stars p ≡ true) ↔ Fits p []
unfolding only_stars
only_stars_iff [] = (λ h. empty, λ d. refl)
only_stars_iff (x ∷ p) =
    let (sound, complete) = only_stars_iff p in
    (
      λ h. let (s, r) = and-eq-true (x == star) (only_stars p) h in leave s (sound r),
      λ d. stars x p complete d,
    )
  where
    stars :
        (x : ℕ) (p : Text)
        → (Fits p [] → only_stars p ≡ true)
        → Fits (x ∷ p) []
        → (x == star && only_stars p) ≡ true
    stars x p complete (leave h d) = let rest = complete d in ground arith

-- The loop ended with an answer, and the answer is right about `G`.
abbrev pub Answers : Type 0 → Option Bool → Type 0
Answers G none = ⊥
Answers G (some true) = G
Answers G (some false) = ¬ G

Answers-iff : {G : Type 0} (b : Bool) → (b ≡ true) ↔ G → Answers G (some b)
Answers-iff true e = e.0 refl
Answers-iff false e = λ g. let no = e.1 g in cc

rounds_below : (a m k : ℕ) → suc a ≤ m → a * k + k ≤ m * k
rounds_below a zero k h = absurd (omega arith)
rounds_below zero (suc m) k h = grind arith
rounds_below (suc a) (suc m) k h = let below = rounds_below a m k (omega arith) in grind arith

rounds_enough : (a b : ℕ) → a * (b + 1) + b < suc ((a + 1) * (b + 1))
rounds_enough a b = grind arith

nothing : {c : ℕ} {t : Text} → ¬ Fits [] (c ∷ t)
nothing d = elim d [ ]

-- a star in the pattern is no character of the text
no_star_here :
    (x c : ℕ) → (x == question || x == c) ≡ true → (c == star) ≡ false → (x == star) ≡ false
no_star_here x c h n = elim (Bool-cases (x == star)) [
  | inl e ↦ let here = ==_eq x star e in grind arith
  | inr e ↦ e
]

from_star : {x : ℕ} {p t : Text} → (x == star) ≡ true → Fits (star ∷ p) t → Fits (x ∷ p) t
from_star {x} {p} {t} e d = subst (λ y. Fits (y ∷ p) t) (sym (==_eq x star e)) d

-- `G` is the question at the start; patterns in play are shorter than `k`.
module _ (G : Type 0) (k : ℕ) where
  -- What the saved place means; `m` bounds the text behind it.
  abbrev IsSaved : ℕ → Text → Text → Resume → Type 0
  IsSaved m p t none = G → Fits p t
  IsSaved m p t (some (bp, bt)) =
      (G ↔ Fits (star ∷ bp) bt)
      × (Fits bp bt → Fits p t)
      × (length t ≤ length bt)
      × (length bt ≤ m)
      × (length bp < k)
      × (has_byte star bt ≡ false)

  record Invariant (rounds m : ℕ) (p t : Text) (saved : Resume) : Type 0 where
    now : Fits p t → G
    later : G → Fits (star ∷ p) t
    is_saved : IsSaved m p t saved
    text_bound : length t ≤ m
    pattern_bound : length p < k
    enough : m * k + length p < rounds
    no_star : has_byte star t ≡ false

  Invariant-restart :
      {rounds m : ℕ} {p t : Text}
      → G ↔ Fits (star ∷ p) t
      → length t ≤ m
      → length p < k
      → m * k + length p < rounds
      → has_byte star t ≡ false
      → Invariant rounds m p t (some (p, t))
  Invariant-restart e ht hp hr ns = record {
    now = λ d. e.1 (leave refl d);
    later = e.0;
    is_saved = (e, λ d. d, omega arith, ht, hp, ns);
    text_bound = ht;
    pattern_bound = hp;
    enough = hr;
    no_star = ns;
  }

  -- the character is matched: both go on behind it
  Invariant-byte :
      {rounds m x c : ℕ} {p t : Text} {saved : Resume}
      → (x == question || x == c) ≡ true
      → (x == star) ≡ false
      → Invariant (suc rounds) m (x ∷ p) (c ∷ t) saved
      → Invariant rounds m p t saved
  Invariant-byte {rounds} {m} {x} {c} {p} {t} {saved} h n i = record {
    now = λ d. i.now (one h d);
    later = λ g. drop_one t n (i.later g);
    is_saved = IsSaved-byte saved i.is_saved;
    text_bound = let b = i.text_bound in omega arith;
    pattern_bound = let b = i.pattern_bound in omega arith;
    enough = let b = i.enough in omega arith;
    no_star = (or-eq-false (c == star) (has_byte star t) i.no_star).1;
  }
    where
      IsSaved-byte : (saved : Resume) → IsSaved m (x ∷ p) (c ∷ t) saved → IsSaved m p t saved
      IsSaved-byte none f = λ g. (only_one n (f g)).1
      IsSaved-byte (some (bp, bt)) (e, f, l, r, s, u) =
          (e, λ d. (only_one n (f d)).1, omega arith, r, s, u)

  resume-Answers :
      {rounds m : ℕ} {p t : Text} {c : ℕ} (saved : Resume)
      (next : Text → Text → Resume → Option Bool)
      → ¬ Fits p (c ∷ t)
      → Invariant (suc rounds) m p (c ∷ t) saved
      → ((m : ℕ) (p t : Text) (saved : Resume)
          → Invariant rounds m p t saved
          → Answers G (next p t saved))
      → Answers G (resume saved next)
  unfolding resume
  resume-Answers none next n i go = λ g. n (i.is_saved g)
  resume-Answers (some (bp, [])) next n i go =
      let (e, f, l, r, s, u) = i.is_saved in absurd (omega arith)
  resume-Answers {rounds} {m} {p} (some (bp, b ∷ bt)) next n i go =
      let (e, f, l, h, hp, ns) = i.is_saved in
      let enough = i.enough in
      let less = rounds_below (length bt) m k h in
      go (length bt) bp bt (some (bp, bt)) (
        Invariant-restart (λ g. must_take (e.0 g) (λ d. n (f d)), λ d. e.1 (take refl d))
          (omega arith) hp (omega arith) (or-eq-false (b == star) (has_byte star bt) ns).1)

  loop-Answers :
      (rounds m : ℕ) (p t : Text) (saved : Resume)
      → Invariant rounds m p t saved
      → Answers G (wildcard_loop rounds p t saved)
  unfolding wildcard_loop
  loop-Answers zero m p t saved i = let b = i.enough in absurd (omega arith)
  loop-Answers (suc rounds) m p [] saved i =
      let (sound, complete) = only_stars_iff p in
      Answers-iff (only_stars p) (λ h. i.now (sound h), λ g. complete (star_at_end (i.later g)))
  loop-Answers (suc rounds) m [] (c ∷ t) saved i =
      resume-Answers saved (wildcard_loop rounds) nothing i (loop-Answers rounds)
  loop-Answers (suc rounds) m (x ∷ p) (c ∷ t) saved i =
      elim (Bool-cases (x == question || x == c)) [
        | inl h ↦
            rw (wildcard_loop, h)
              (loop-Answers rounds m p t saved (
                Invariant-byte h
                  (no_star_here x c h (or-eq-false (c == star) (has_byte star t) i.no_star).0) i))
        | inr h ↦ elim (Bool-cases (x == star)) [
          | inl s ↦
              rw (wildcard_loop, h, s)
                (loop-Answers rounds m p (c ∷ t) (some (p, c ∷ t)) (
                  let enough = i.enough in
                  let short = i.pattern_bound in
                  Invariant-restart (λ g. two_stars s (i.later g), λ d. i.now (from_star s d))
                    i.text_bound (omega arith) (omega arith) i.no_star))
          | inr s ↦
              rw (wildcard_loop, h, s)
                (resume-Answers saved (wildcard_loop rounds)
                  (λ d. let (here, rest) = only_one s d in cc) i (loop-Answers rounds))
        ]
      ]

-- The loop of `wildcard_match` ends with an answer, for every pattern and every text without a '*',
-- and answers true exactly if the pattern fits: each star stands for any characters, each question
-- mark for one, and every other character for itself.
pub wildcard_match-Answers :
    (pattern text : Text)
    → has_byte star text ≡ false
    → Answers (Fits pattern text) (wildcard_match pattern text)
unfolding wildcard_match
wildcard_match-Answers pattern text ns =
    loop-Answers (Fits pattern text) (length pattern + 1)
      (suc ((length text + 1) * (length pattern + 1))) (length text) pattern text none
      record {
        now = λ d. d;
        later = leave refl;
        is_saved = λ d. d;
        text_bound = omega arith;
        pattern_bound = omega arith;
        enough = rounds_enough (length text) (length pattern);
        no_star = ns;
      }
