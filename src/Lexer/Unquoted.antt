-- ===== src/Lexer/Unquoted.antt =====
-- What a line without quotes that crates/fslite-command/src/lexer.rs accepts is free of.
use fslite.Common.{
  ℕ, zero, suc, ◌≡◌, refl, subst, Bool, true, false, ◌&&◌, ◌||◌, List, [], ◌∷◌, ◌++◌, Text,
  has_byte, length, ltb, ◌==◌, inl, inr, Bool-cases, or-eq-false, arith,
}
use package.fslite.Lexer.{
  Token, Lexed, ok, err, unfinished, and_then, is_whitespace, is_metacharacter, single_quote,
  double_quote, classify, read_word, tokenize_loop, tokenize, byte_len, max_line_len,
  has_substitution,
}

unfoldable pub has_quote : Text → Bool
has_quote [] = false
has_quote (c ∷ chars) = (c == single_quote || c == double_quote) || has_quote chars

unfoldable pub has_metacharacter : Text → Bool
has_metacharacter [] = false
has_metacharacter (c ∷ chars) = is_metacharacter c || has_metacharacter chars

-- what was read of the characters had no metacharacter
abbrev Carries : Text → Lexed (Text × Text) → Type 0
Carries chars (ok (text, rest)) =
    (has_metacharacter rest ≡ false → has_metacharacter chars ≡ false) × (has_quote rest ≡ false)
Carries chars (err e) = Unit
Carries chars unfinished = Unit

Carries-more :
    (c : ℕ) (chars : Text) (r : Lexed (Text × Text))
    → is_metacharacter c ≡ false
    → Carries chars r
    → Carries (c ∷ chars) r
unfolding has_metacharacter
Carries-more c chars (ok (text, rest)) h (free, plain) = (λ n. rw h (free n), plain)
Carries-more c chars (err e) h k = tt
Carries-more c chars unfinished h k = tt

no_quote :
    (c : ℕ) (chars : Text)
    → has_quote (c ∷ chars) ≡ false
    → ((c == single_quote) ≡ false) × ((c == double_quote) ≡ false) × (has_quote chars ≡ false)
unfolding has_quote
no_quote c chars h =
    let (here, behind) = or-eq-false (c == single_quote || c == double_quote) (has_quote chars) h in
    let (single, double) = or-eq-false (c == single_quote) (c == double_quote) here in
    (single, double, behind)

started_meta : (c : ℕ) → (is_metacharacter c && true) ≡ false → is_metacharacter c ≡ false
started_meta c h = elim (Bool-cases (is_metacharacter c)) [ inl e ↦ cc | inr e ↦ e ]

read_word-Carries :
    (rounds : ℕ) (so_far chars : Text)
    → has_quote chars ≡ false
    → Carries chars (read_word rounds true so_far chars)
unfolding read_word
read_word-Carries rounds so_far [] plain = (λ n. n, plain)
read_word-Carries zero so_far (c ∷ chars) plain = tt
read_word-Carries (suc rounds) so_far (c ∷ chars) plain =
    let (single, double, behind) = no_quote c chars plain in
    let go = read_word-Carries rounds (so_far ++ c ∷ []) chars behind in
    elim (Bool-cases (is_whitespace c)) [
      | inl space ↦ rw (read_word, space) (λ n. n, plain)
      | inr space ↦ elim (Bool-cases (is_metacharacter c && true)) [
        | inl meta ↦ rw (read_word, space, meta) tt
        | inr meta ↦
            rw (read_word, space, meta, single, double)
              (Carries-more c chars (read_word rounds true (so_far ++ c ∷ []) chars)
                (started_meta c meta) go)
      ]
    ]

-- the first character of a word
first_Carries :
    (c : ℕ) (chars : Text)
    → (c == single_quote) ≡ false
    → (c == double_quote) ≡ false
    → is_metacharacter c ≡ false
    → is_whitespace c ≡ false
    → Carries chars (read_word (length chars) true (c ∷ []) chars)
    → Carries (c ∷ chars) (read_word (suc (length chars)) false [] (c ∷ chars))
unfolding read_word
first_Carries c chars single double meta space go =
    rw (read_word, space, meta, single, double)
      (Carries-more c chars (read_word (length chars) true (c ∷ []) chars) meta go)

-- the line of the tokens had no metacharacter
abbrev Clean : Text → Lexed (List Token) → Type 0
Clean chars (ok tokens) = has_metacharacter chars ≡ false
Clean chars (err e) = Unit
Clean chars unfinished = Unit

Clean-then :
    (chars : Text) (r : Lexed (Text × Text)) (next : Text → Lexed (List Token))
    → Carries chars r
    → ((rest : Text) → has_quote rest ≡ false → Clean rest (next rest))
    → Clean chars (and_then r (λ w. and_then (next w.1) (λ tokens. ok (classify w.0 ∷ tokens))))
Clean-then chars (ok (text, rest)) next (free, plain) go = tokens (next rest) (go rest plain)
  where
    tokens :
        (r : Lexed (List Token))
        → Clean rest r
        → Clean chars (and_then r (λ tokens. ok (classify text ∷ tokens)))
    tokens (ok ts) h = free h
    tokens (err e) h = tt
    tokens unfinished h = tt
Clean-then chars (err e) next h go = tt
Clean-then chars unfinished next h go = tt

-- no white space is a metacharacter
space_is_plain : (c : ℕ) → is_whitespace c ≡ true → is_metacharacter c ≡ false
unfolding is_whitespace is_metacharacter
space_is_plain c h = ground arith

tokenize_loop-Clean :
    (rounds : ℕ) (chars : Text) → has_quote chars ≡ false → Clean chars (tokenize_loop rounds chars)
unfolding tokenize_loop has_metacharacter
tokenize_loop-Clean rounds [] plain = refl
tokenize_loop-Clean zero (c ∷ chars) plain = tt
tokenize_loop-Clean (suc rounds) (c ∷ chars) plain =
    let (single, double, behind) = no_quote c chars plain in
    elim (Bool-cases (is_whitespace c)) [
      | inl space ↦
          rw (tokenize_loop, space)
            (Clean-space (tokenize_loop rounds chars) (space_is_plain c space)
              (tokenize_loop-Clean rounds chars behind))
      | inr space ↦ elim (Bool-cases (is_metacharacter c)) [
        | inl meta ↦ rw (tokenize_loop, space, meta) tt
        | inr meta ↦
            rw (tokenize_loop, space, meta)
              (Clean-then (c ∷ chars) (read_word (suc (length chars)) false [] (c ∷ chars))
                (tokenize_loop rounds)
                (first_Carries c chars single double meta space
                  (read_word-Carries (length chars) (c ∷ []) chars behind))
                (tokenize_loop-Clean rounds))
      ]
    ]
  where
    Clean-space :
        (r : Lexed (List Token)) → is_metacharacter c ≡ false → Clean chars r → Clean (c ∷ chars) r
    Clean-space (ok ts) e h = rw e h
    Clean-space (err x) e h = tt
    Clean-space unfinished e h = tt

tokenize-Clean : (line : Text) → has_quote line ≡ false → Clean line (tokenize line)
unfolding tokenize
tokenize-Clean line plain = elim (Bool-cases (ltb max_line_len (byte_len line))) [
  | inl long ↦ rw (tokenize, long) tt
  | inr long ↦ elim (Bool-cases (has_byte 0 line)) [
    | inl nul ↦ rw (tokenize, long, nul) tt
    | inr nul ↦ elim (Bool-cases (has_substitution line)) [
      | inl dollar ↦ rw (tokenize, long, nul, dollar) tt
      | inr dollar ↦ rw (tokenize, long, nul, dollar) (tokenize_loop-Clean (length line) line plain)
    ]
  ]
]

-- A line without quotes that is tokenized has no shell metacharacter: such a character is refused,
-- wherever it stands.
pub tokenize-has_metacharacter :
    (line : Text) (tokens : List Token)
    → has_quote line ≡ false
    → tokenize line ≡ ok tokens
    → has_metacharacter line ≡ false
tokenize-has_metacharacter line tokens plain h = subst (Clean line) h (tokenize-Clean line plain)
