-- ===== src/Lexer/Ending.antt =====
-- That the loops of crates/fslite-command/src/lexer.rs end, and what an accepted line is free of.
use fslite.Common.{
  ℕ, zero, suc, ◌≤◌, ◌≡◌, ◌≢◌, refl, Bool, true, false, ◌&&◌, Option, none, some, List, [], ◌∷◌,
  ◌++◌, Text, has_byte, length, ltb, ◌==◌, inl, inr, Bool-cases, arith,
}
use package.fslite.Lexer.{
  Token, Lexed, ok, err, unfinished, invalid_escape, pushed, and_then, is_whitespace,
  is_metacharacter, single_quote, double_quote, backslash, escaped, classify, read_single_quoted,
  read_double_quoted, read_word, tokenize_loop, tokenize, byte_len, max_line_len, has_substitution,
}

-- A read ends, and leaves no more than that.
abbrev Ends : ℕ → Lexed (Text × Text) → Type 0
Ends n (ok (text, rest)) = length rest ≤ n
Ends n (err e) = Unit
Ends n unfinished = ⊥

Ends-pushed : (c : ℕ) {n m : ℕ} (r : Lexed (Text × Text)) → Ends n r → n ≤ m → Ends m (pushed c r)
Ends-pushed c (ok (text, rest)) h le = omega arith
Ends-pushed c (err e) h le = tt
Ends-pushed c unfinished h le = elim h [ ]

read_single_quoted-Ends : (chars : Text) → Ends (length chars) (read_single_quoted chars)
unfolding read_single_quoted
read_single_quoted-Ends [] = tt
read_single_quoted-Ends (c ∷ chars) = elim (Bool-cases (c == single_quote)) [
  | inl e ↦ rw e (omega arith)
  | inr e ↦
      rw e (Ends-pushed c (read_single_quoted chars) (read_single_quoted-Ends chars) (omega arith))
]

read_double_quoted-Ends : (chars : Text) → Ends (length chars) (read_double_quoted chars)
unfolding read_double_quoted
read_double_quoted-Ends [] = tt
read_double_quoted-Ends (c ∷ []) = elim (Bool-cases (c == double_quote)) [
  | inl e ↦ rw e (omega arith)
  | inr e ↦ rw e tt
]
read_double_quoted-Ends (c ∷ d ∷ chars) =
    let one_more = read_double_quoted-Ends (d ∷ chars) in
    let two_more = read_double_quoted-Ends chars in
    elim (Bool-cases (c == double_quote)) [
      | inl e ↦ rw (read_double_quoted, e) (omega arith)
      | inr e ↦ elim (Bool-cases (c == backslash)) [
        | inl k ↦ rw (read_double_quoted, e, k) (unescaped (escaped d) two_more)
        | inr k ↦
            rw (read_double_quoted, e, k)
              (Ends-pushed c (read_double_quoted (d ∷ chars)) one_more (omega arith))
      ]
    ]
  where
    unescaped :
        (o : Option ℕ)
        → Ends (length chars) (read_double_quoted chars)
        → Ends (suc (suc (length chars))) (elim o [
          | none ↦ err (invalid_escape d)
          | some e ↦ pushed e (read_double_quoted chars)
        ])
    unescaped none h = tt
    unescaped (some e) h = Ends-pushed e (read_double_quoted chars) h (omega arith)

-- what goes on behind a quoted part
Ends-then :
    {n : ℕ} (m : ℕ) (r : Lexed (Text × Text)) (next : Text × Text → Lexed (Text × Text))
    → Ends n r
    → ((q : Text × Text) → length q.1 ≤ n → Ends m (next q))
    → Ends m (and_then r next)
Ends-then m (ok q) next h go = go q h
Ends-then m (err e) next h go = tt
Ends-then m unfinished next h go = elim h [ ]

Ends-le : {n m : ℕ} (r : Lexed (Text × Text)) → Ends n r → n ≤ m → Ends m r
Ends-le (ok (text, rest)) h le = omega arith
Ends-le (err e) h le = tt
Ends-le unfinished h le = elim h [ ]

-- the branches of `read_word` that take a character
module _ (rounds : ℕ) (started : Bool) (so_far : Text) (c : ℕ) (chars : Text) where
  read_word_taken :
      ((so_far chars : Text)
        → length chars ≤ rounds
        → Ends (length chars) (read_word rounds true so_far chars))
      → length chars ≤ rounds
      → is_whitespace c ≡ false
      → (is_metacharacter c && started) ≡ false
      → Ends (length chars) (read_word (suc rounds) started so_far (c ∷ chars))
  unfolding read_word
  read_word_taken go enough space meta = elim (Bool-cases (c == single_quote)) [
    | inl e ↦
        rw (read_word, space, meta, e)
          (Ends-then (length chars) (read_single_quoted chars) _ (read_single_quoted-Ends chars)
            (λ q h.
              Ends-le (read_word rounds true (so_far ++ q.0) q.1)
                (go (so_far ++ q.0) q.1 (omega arith)) h))
    | inr e ↦ elim (Bool-cases (c == double_quote)) [
      | inl k ↦
          rw (read_word, space, meta, e, k)
            (Ends-then (length chars) (read_double_quoted chars) _ (read_double_quoted-Ends chars)
              (λ q h.
                Ends-le (read_word rounds true (so_far ++ q.0) q.1)
                  (go (so_far ++ q.0) q.1 (omega arith)) h))
      | inr k ↦ rw (read_word, space, meta, e, k) (go (so_far ++ c ∷ []) chars enough)
    ]
  ]

read_word-Ends :
    (rounds : ℕ) (started : Bool) (so_far chars : Text)
    → length chars ≤ rounds
    → Ends (length chars) (read_word rounds started so_far chars)
unfolding read_word
read_word-Ends rounds started so_far [] enough = omega arith
read_word-Ends zero started so_far (c ∷ chars) enough = absurd (omega arith)
read_word-Ends (suc rounds) started so_far (c ∷ chars) enough =
    let go = read_word-Ends rounds true in
    elim (Bool-cases (is_whitespace c)) [
      | inl space ↦ rw (read_word, space) (omega arith)
      | inr space ↦ elim (Bool-cases (is_metacharacter c && started)) [
        | inl meta ↦ rw (read_word, space, meta) tt
        | inr meta ↦
            Ends-le (read_word (suc rounds) started so_far (c ∷ chars))
              (read_word_taken rounds started so_far c chars go (omega arith) space meta)
              (omega arith)
      ]
    ]

-- The loop over the words ends.
abbrev Finishes : Lexed (List Token) → Type 0
Finishes (ok tokens) = Unit
Finishes (err e) = Unit
Finishes unfinished = ⊥

Finishes-then :
    {n : ℕ} (r : Lexed (Text × Text)) (next : Text → Lexed (List Token))
    → Ends n r
    → ((rest : Text) → length rest ≤ n → Finishes (next rest))
    → Finishes (and_then r (λ w. and_then (next w.1) (λ tokens. ok (classify w.0 ∷ tokens))))
Finishes-then (ok (text, rest)) next h go = tokens (next rest) (go rest h)
  where
    tokens :
        (r : Lexed (List Token))
        → Finishes r
        → Finishes (and_then r (λ tokens. ok (classify text ∷ tokens)))
    tokens (ok ts) h = tt
    tokens (err e) h = tt
    tokens unfinished h = elim h [ ]
Finishes-then (err e) next h go = tt
Finishes-then unfinished next h go = elim h [ ]

tokenize_loop-Finishes :
    (rounds : ℕ) (chars : Text) → length chars ≤ rounds → Finishes (tokenize_loop rounds chars)
unfolding tokenize_loop
tokenize_loop-Finishes rounds [] enough = tt
tokenize_loop-Finishes zero (c ∷ chars) enough = absurd (omega arith)
tokenize_loop-Finishes (suc rounds) (c ∷ chars) enough = elim (Bool-cases (is_whitespace c)) [
  | inl space ↦ rw (tokenize_loop, space) (tokenize_loop-Finishes rounds chars (omega arith))
  | inr space ↦ elim (Bool-cases (is_metacharacter c)) [
    | inl meta ↦ rw (tokenize_loop, space, meta) tt
    | inr meta ↦
        let go = read_word-Ends (length chars) true in
        let read =
          read_word_taken (length chars) false [] c chars go (omega arith) space (rw meta refl) in
        rw (tokenize_loop, space, meta)
          (Finishes-then (read_word (suc (length chars)) false [] (c ∷ chars))
            (tokenize_loop rounds) read
            (λ rest h. tokenize_loop-Finishes rounds rest (omega arith)))
  ]
]

Finishes-not : (r : Lexed (List Token)) → Finishes r → r ≢ unfinished
Finishes-not (ok tokens) h e = cc
Finishes-not (err x) h e = cc
Finishes-not unfinished h e = h

-- Every line is tokenized or refused: none of the loops runs out of rounds.
pub tokenize-ends : (line : Text) → tokenize line ≢ unfinished
unfolding tokenize
tokenize-ends line =
    Finishes-not (tokenize line) (elim (Bool-cases (ltb max_line_len (byte_len line))) [
      | inl long ↦ rw (tokenize, long) tt
      | inr long ↦ elim (Bool-cases (has_byte 0 line)) [
        | inl nul ↦ rw (tokenize, long, nul) tt
        | inr nul ↦ elim (Bool-cases (has_substitution line)) [
          | inl dollar ↦ rw (tokenize, long, nul, dollar) tt
          | inr dollar ↦
              rw (tokenize, long, nul, dollar)
                (tokenize_loop-Finishes (length line) line (omega arith))
        ]
      ]
    ])
