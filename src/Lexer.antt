-- ===== src/Lexer.antt =====
-- The tokenizer of crates/fslite-command/src/lexer.rs. A line is the list of its characters, each
-- the number of its code point.

pub mod Quoting
pub mod Ending
pub mod Unquoted
use fslite.Common.{
  ℕ, zero, suc, ◌+◌, Bool, true, false, ◌&&◌, ◌||◌, Option, none, some, List, [], ◌∷◌, ◌++◌, Text,
  codes, strip_prefix, split_once, has_byte, length, ltb, leb, ◌==◌, if◌then◌else◌,
}

abbrev pub max_line_len : ℕ
max_line_len = 65536

pub data Token : Type 0 where
  word : Text → Token
  flag : Text → Option Text → Token

pub data LexError : Type 0 where
  unterminated_quote nul_byte : LexError
  invalid_escape unsupported_metacharacter : ℕ → LexError
  too_long : ℕ → ℕ → LexError

-- A result, or a loop that has used up its rounds.
pub data Lexed {ℓ} (A : Type ℓ) : Type ℓ where
  ok : A → Lexed A
  err : LexError → Lexed A
  unfinished : Lexed A

abbrev pub and_then {ℓ κ} : {A : Type ℓ} {B : Type κ} → Lexed A → (A → Lexed B) → Lexed B
and_then (ok a) f = f a
and_then (err e) f = err e
and_then unfinished f = unfinished

abbrev pub between : ℕ → ℕ → ℕ → Bool
between a b c = leb a c && leb c b

-- `char::is_whitespace`
unfoldable pub is_whitespace : ℕ → Bool
is_whitespace c =
    between 9 13 c
    || c == 32
    || c == 133
    || c == 160
    || c == 5760
    || between 8192 8202 c
    || c == 8232
    || c == 8233
    || c == 8239
    || c == 8287
    || c == 12288

-- '|', ';', '&', '<', '>', '`'
unfoldable pub is_metacharacter : ℕ → Bool
is_metacharacter c = c == 124 || c == 59 || c == 38 || c == 60 || c == 62 || c == 96

abbrev pub single_quote : ℕ
single_quote = 39

abbrev pub double_quote : ℕ
double_quote = 34

abbrev pub backslash : ℕ
backslash = 92

-- `str::len`
utf8_len : ℕ → ℕ
utf8_len c = if ltb c 128 then 1 else if ltb c 2048 then 2 else if ltb c 65536 then 3 else 4

unfoldable pub byte_len : Text → ℕ
unfolding utf8_len
byte_len [] = 0
byte_len (c ∷ line) = utf8_len c + byte_len line

-- `line.contains("$(")`
unfoldable pub has_substitution : Text → Bool
has_substitution [] = false
has_substitution (c ∷ []) = false
has_substitution (c ∷ d ∷ line) = (c == 36 && d == 40) || has_substitution (d ∷ line)

unfoldable pub classify : Text → Token
classify text = elim (strip_prefix (codes "--") text) [
  | none ↦ word text
  | some rest ↦ elim (split_once 61 rest) [
    | none ↦ flag rest none
    | some (name, value) ↦ flag name (some value)
  ]
]

-- a character in front of what a loop has still to read
abbrev pub pushed : ℕ → Lexed (Text × Text) → Lexed (Text × Text)
pushed c read = and_then read (λ r. ok (c ∷ r.0, r.1))

-- What is read, and the characters that are left.
unfoldable pub read_single_quoted : Text → Lexed (Text × Text)
read_single_quoted [] = err unterminated_quote
read_single_quoted (c ∷ chars) =
    let rest = read_single_quoted chars in
    if c == single_quote then ok ([], chars) else pushed c rest

-- what a backslash makes of a character: n, t, " and itself
unfoldable pub escaped : ℕ → Option ℕ
escaped c =
    if c == 110
    then some 10
    else if c == 116
    then some 9
    else if c == double_quote
    then some double_quote
    else if c == backslash
    then some backslash
    else none

unfoldable pub read_double_quoted : Text → Lexed (Text × Text)
read_double_quoted [] = err unterminated_quote
read_double_quoted (c ∷ []) = if c == double_quote then ok ([], []) else err unterminated_quote
read_double_quoted (c ∷ d ∷ chars) = elim (c == double_quote) [
  | true ↦ ok ([], d ∷ chars)
  | false ↦ elim (c == backslash) [
    | true ↦ elim (escaped d) [
      | none ↦ err (invalid_escape d)
      | some e ↦ pushed e (read_double_quoted chars)
    ]
    | false ↦ pushed c (read_double_quoted (d ∷ chars))
  ]
]

-- The loop of `read_word`, with what it has read and whether it has started; the rounds bound it.
unfoldable pub read_word : ℕ → Bool → Text → Text → Lexed (Text × Text)
read_word rounds started so_far [] = ok (so_far, [])
read_word zero started so_far (c ∷ chars) = unfinished
read_word (suc rounds) started so_far (c ∷ chars) = elim (is_whitespace c) [
  | true ↦ ok (so_far, c ∷ chars)
  | false ↦ elim (is_metacharacter c && started) [
    | true ↦ err (unsupported_metacharacter c)
    | false ↦ elim (c == single_quote) [
      | true ↦ and_then (read_single_quoted chars) (λ q. read_word rounds true (so_far ++ q.0) q.1)
      | false ↦ elim (c == double_quote) [
        | true ↦
            and_then (read_double_quoted chars) (λ q. read_word rounds true (so_far ++ q.0) q.1)
        | false ↦ read_word rounds true (so_far ++ c ∷ []) chars
      ]
    ]
  ]
]

-- The loop of `tokenize`; the rounds bound it.
unfoldable pub tokenize_loop : ℕ → Text → Lexed (List Token)
tokenize_loop rounds [] = ok []
tokenize_loop zero (c ∷ chars) = unfinished
tokenize_loop (suc rounds) (c ∷ chars) = elim (is_whitespace c) [
  | true ↦ tokenize_loop rounds chars
  | false ↦ elim (is_metacharacter c) [
    | true ↦ err (unsupported_metacharacter c)
    | false ↦
        and_then (read_word (suc (length chars)) false [] (c ∷ chars))
          (λ w. and_then (tokenize_loop rounds w.1) (λ tokens. ok (classify w.0 ∷ tokens)))
  ]
]

unfoldable pub tokenize : Text → Lexed (List Token)
tokenize line =
    if ltb max_line_len (byte_len line)
    then err (too_long max_line_len (byte_len line))
    else if has_byte 0 line
    then err nul_byte
    else if has_substitution line
    then err (unsupported_metacharacter 36)
    else tokenize_loop (length line) line
