-- ===== src/Tests/Lines.antt =====
-- The theorems on command lines.
use mathlib.Core.List.{map}
use fslite.Common.{◌≡◌, refl, ◌≢◌, false, [], ◌∷◌, codes, arith}
use fslite.Lexer
use fslite.Lexer.{
  word, tokenize, tokenize_loop, unfinished, classify, byte_len, has_substitution, is_whitespace,
  is_metacharacter, read_word,
}
use fslite.Lexer.Quoting.{quoted, quoted_line, escape, tokenize-quoted_line}
use fslite.Lexer.Ending.{tokenize-ends}
use fslite.Lexer.Unquoted.{has_quote, has_metacharacter, tokenize-has_metacharacter}

tokenize-quoted_line_example :
    tokenize (quoted_line (codes "write" ∷ codes "a; b" ∷ []))
    ≡ Lexer.ok (map classify (codes "write" ∷ codes "a; b" ∷ []))
unfolding quoted_line quoted escape byte_len has_substitution
tokenize-quoted_line_example =
    tokenize-quoted_line (codes "write" ∷ codes "a; b" ∷ []) (omega arith) refl refl

tokenize-ends_example : tokenize (codes "ls \"/a b\"") ≢ unfinished
tokenize-ends_example = tokenize-ends (codes "ls \"/a b\"")

tokenize-has_metacharacter_example : has_metacharacter (codes "ls /") ≡ false
unfolding has_quote tokenize tokenize_loop byte_len has_substitution classify is_whitespace
    is_metacharacter read_word
tokenize-has_metacharacter_example =
    tokenize-has_metacharacter (codes "ls /") (word (codes "ls") ∷ word (codes "/") ∷ []) refl refl
