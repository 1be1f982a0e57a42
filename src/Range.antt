-- ===== src/Range.antt =====
-- The `Range` header of crates/fslite-server/src/range.rs.
pub mod Bounds
use fslite.Common.{
  ℕ, ◌+◌, ◌-◌, ◌*◌, Bool, true, false, Option, none, some, [], ◌∷◌, Text, codes, strip_prefix,
  split_once, has_byte, ltb, leb, ◌==◌, min, ◌&&◌, if◌then◌else◌,
}
use fslite.Content.Read.{ByteRange}

pub data RangeError : Type 0 where
  malformed multi_range_unsupported unsatisfiable : RangeError

pub data Resolved : Type 0 where
  ok : ByteRange → Resolved
  err : RangeError → Resolved

-- 2 ^ 64
abbrev pub u64_bound : ℕ
u64_bound = 18446744073709551616

-- The digits of `str::parse::<u64>` behind the value of those before.
unfoldable pub parse_digits : ℕ → Text → Option ℕ
parse_digits value [] = some value
parse_digits value (c ∷ cs) =
    let next = value * 10 + (c - 48) in
    elim (leb 48 c && leb c 57 && ltb next u64_bound) [ true ↦ parse_digits next cs | false ↦ none ]

-- `str::parse::<u64>`: a plus sign may come first, and one digit has to be there.
unfoldable pub parse_u64 : Text → Option ℕ
parse_u64 [] = none
parse_u64 (c ∷ []) = parse_digits 0 (c ∷ [])
parse_u64 (c ∷ d ∷ cs) = if c == 43 then parse_digits 0 (d ∷ cs) else parse_digits 0 (c ∷ d ∷ cs)

-- `saturating_add(1)`
unfoldable pub saturating_suc : ℕ → ℕ
saturating_suc n = if ltb (n + 1) u64_bound then n + 1 else n

-- "-N"
unfoldable pub suffix_range : Option ℕ → ℕ → Resolved
suffix_range none size = err malformed
suffix_range (some suffix_len) size =
    if suffix_len == 0 then err malformed else ok (record { start = size - suffix_len; end = size })

unfoldable pub range_to : ℕ → Option ℕ → ℕ → Resolved
unfolding saturating_suc
range_to start none size = err malformed
range_to start (some inclusive_end) size =
    if ltb inclusive_end start
    then err malformed
    else ok (record { start = start; end = min (saturating_suc inclusive_end) size })

-- "S-" and "S-E"
unfoldable pub range_from : Option ℕ → Text → ℕ → Resolved
unfolding range_to
range_from none end_str size = err malformed
range_from (some start) [] size =
    if leb size start then err unsatisfiable else ok (record { start = start; end = size })
range_from (some start) (c ∷ cs) size =
    if leb size start then err unsatisfiable else range_to start (parse_u64 (c ∷ cs)) size

unfoldable pub split_range : Option (Text × Text) → ℕ → Resolved
unfolding suffix_range range_from
split_range none size = err malformed
split_range (some ([], end_str)) size = suffix_range (parse_u64 end_str) size
split_range (some (c ∷ cs, end_str)) size = range_from (parse_u64 (c ∷ cs)) end_str size

unfoldable pub resolve_range : Text → ℕ → Resolved
unfolding split_range
resolve_range header size = elim (strip_prefix (codes "bytes=") header) [
  | none ↦ err malformed
  | some spec ↦
      if has_byte 44 spec
      then err multi_range_unsupported
      else split_range (split_once 45 spec) size
]
