-- ===== src/Lexer/Quoting.antt =====
-- Words in double quotes, and the tokenizer of crates/fslite-command/src/lexer.rs.
use mathlib.Core.List.{map}
use fslite.Common.{
  ℕ, zero, suc, ◌+◌, ◌≤◌, ◌≡◌, refl, sym, ap, subst, ◌∙◌, true, false, ◌||◌, List, [], ◌∷◌, ◌++◌,
  Text, has_byte, length, ltb, ◌==◌, ==_eq, if◌then◌else◌, append_assoc, or-eq-false, inl, inr,
  Bool-cases, length-append, arith,
}
use package.fslite.Lexer.{
  ok, pushed, and_then, is_whitespace, is_metacharacter, double_quote, backslash, escaped, byte_len,
  max_line_len, has_substitution, classify, read_double_quoted, read_word, tokenize_loop, tokenize,
}

-- the characters of a word inside of double quotes
unfoldable pub escape : Text → Text
escape [] = []
escape (c ∷ cs) =
    let rest = escape cs in
    if c == double_quote || c == backslash then backslash ∷ c ∷ rest else c ∷ rest

unfoldable pub quoted : Text → Text
quoted text = double_quote ∷ escape text ++ double_quote ∷ []

-- each word in quotes, and a space behind it
unfoldable pub quoted_line : List Text → Text
quoted_line [] = []
quoted_line (text ∷ words) = quoted text ++ 32 ∷ quoted_line words

read_double_quoted-other :
    (c : ℕ) (chars : Text)
    → (c == double_quote || c == backslash) ≡ false
    → read_double_quoted (c ∷ chars) ≡ pushed c (read_double_quoted chars)
unfolding read_double_quoted
read_double_quoted-other c [] h =
    let (quote, slash) = or-eq-false (c == double_quote) (c == backslash) h in rw quote refl
read_double_quoted-other c (d ∷ chars) h =
    let (quote, slash) = or-eq-false (c == double_quote) (c == backslash) h in
    rw (read_double_quoted, quote, slash) refl

read_double_quoted-escaped :
    (c : ℕ) (chars : Text)
    → (c == double_quote || c == backslash) ≡ true
    → read_double_quoted (backslash ∷ c ∷ chars) ≡ pushed c (read_double_quoted chars)
unfolding read_double_quoted escaped
read_double_quoted-escaped c chars h = elim (Bool-cases (c == double_quote)) [
  | inl e ↦ subst Reads (sym (==_eq c double_quote e)) refl
  | inr e ↦ subst Reads (sym (==_eq c backslash (ground arith))) refl
]
  where
    Reads : ℕ → Type 0
    Reads k = read_double_quoted (backslash ∷ k ∷ chars) ≡ pushed k (read_double_quoted chars)

read_double_quoted-quote : (rest : Text) → read_double_quoted (double_quote ∷ rest) ≡ ok ([], rest)
unfolding read_double_quoted
read_double_quoted-quote [] = refl
read_double_quoted-quote (c ∷ rest) = refl

read_double_quoted-escape :
    (text rest : Text) → read_double_quoted (escape text ++ double_quote ∷ rest) ≡ ok (text, rest)
unfolding escape
read_double_quoted-escape [] rest = read_double_quoted-quote rest
read_double_quoted-escape (c ∷ text) rest =
    let behind = ap (pushed c) (read_double_quoted-escape text rest) in
    elim (Bool-cases (c == double_quote || c == backslash)) [
      | inl e ↦ rw e (read_double_quoted-escaped c (escape text ++ double_quote ∷ rest) e ∙ behind)
      | inr e ↦ rw e (read_double_quoted-other c (escape text ++ double_quote ∷ rest) e ∙ behind)
    ]

-- A word in quotes, with a space behind it, is read as it was.
read_word-quoted :
    (rounds : ℕ) (text line : Text)
    → 1 ≤ rounds
    → read_word (suc rounds) false [] (quoted text ++ 32 ∷ line) ≡ ok (text, 32 ∷ line)
unfolding read_word quoted is_whitespace is_metacharacter
read_word-quoted zero text line h = absurd (omega arith)
read_word-quoted (suc rounds) text line h =
    rw
      (
        append_assoc (escape text) (double_quote ∷ []) (32 ∷ line),
        read_double_quoted-escape text (32 ∷ line),
      )
      refl

tokenize_loop-quoted :
    (rounds : ℕ) (text line : Text)
    → tokenize_loop (suc rounds) (quoted text ++ 32 ∷ line)
      ≡ and_then (tokenize_loop rounds (32 ∷ line)) (λ tokens. ok (classify text ∷ tokens))
unfolding tokenize_loop quoted is_whitespace is_metacharacter
tokenize_loop-quoted rounds text line =
    let inner = length-append (escape text ++ double_quote ∷ []) (32 ∷ line) in
    rw
      (read_word-quoted (length ((escape text ++ double_quote ∷ []) ++ 32 ∷ line)) text line
        (omega arith))
      refl

tokenize_loop-space :
    (rounds : ℕ) (line : Text) → tokenize_loop (suc rounds) (32 ∷ line) ≡ tokenize_loop rounds line
unfolding tokenize_loop is_whitespace
tokenize_loop-space rounds line = refl

length-quoted : (text line : Text) → 2 + length line ≤ length (quoted text ++ 32 ∷ line)
unfolding quoted
length-quoted text line =
    let inner = length-append (escape text ++ double_quote ∷ []) (32 ∷ line) in omega arith

tokenize_loop-quoted_line :
    (words : List Text) (rounds : ℕ)
    → length (quoted_line words) ≤ rounds
    → tokenize_loop rounds (quoted_line words) ≡ ok (map classify words)
unfolding tokenize_loop quoted_line
tokenize_loop-quoted_line [] rounds enough = refl
tokenize_loop-quoted_line (text ∷ words) zero enough =
    let size = length-quoted text (quoted_line words) in absurd (omega arith)
tokenize_loop-quoted_line (text ∷ words) (suc zero) enough =
    let size = length-quoted text (quoted_line words) in absurd (omega arith)
tokenize_loop-quoted_line (text ∷ words) (suc (suc rounds)) enough =
    let size = length-quoted text (quoted_line words) in
    let rest = tokenize_loop-quoted_line words rounds (omega arith) in
    tokenize_loop-quoted (suc rounds) text (quoted_line words)
    ∙ ap (λ l. and_then l (λ tokens. ok (classify text ∷ tokens)))
        (tokenize_loop-space rounds (quoted_line words) ∙ rest)

-- Words in double quotes, with their quotes and backslashes escaped, come back as the words that
-- they are, each classified, if the line is not too long and has no NUL and no "$(".
pub tokenize-quoted_line :
    (words : List Text)
    → byte_len (quoted_line words) ≤ max_line_len
    → has_byte 0 (quoted_line words) ≡ false
    → has_substitution (quoted_line words) ≡ false
    → tokenize (quoted_line words) ≡ ok (map classify words)
unfolding tokenize
tokenize-quoted_line words short no_nul no_substitution =
    rw (not_long, no_nul, no_substitution)
      (tokenize_loop-quoted_line words (length (quoted_line words)) (omega arith))
  where
    not_long : ltb max_line_len (byte_len (quoted_line words)) ≡ false
    not_long = ground arith
