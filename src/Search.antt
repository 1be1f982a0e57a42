-- ===== src/Search.antt =====
-- Patterns and their matching, of crates/fslite-sqlite/src/search.rs. A text is read here as the
-- list of its characters; the functions that are shared with Path cannot tell these from bytes.
pub mod Wildcard
pub mod Globbing
pub mod Contents
pub mod Pieces
pub mod Found
pub mod Occurrences
use fslite.Common.{
  ℕ, zero, suc, ◌+◌, ◌*◌, Bool, true, false, not, ◌&&◌, ◌||◌, Option, none, some, List, [], ◌∷◌,
  ◌++◌, Text, codes, text_eq, has_byte, length, ◌==◌, if◌then◌else◌,
}
use fslite.Path
use fslite.Path.{
  Parsed, ok, invalid_path_or_name, VirtualPath, split, starts_with_slash, is_empty, root, join,
}

abbrev pub star : ℕ
star = b'*'

abbrev pub question : ℕ
question = b'?'

pub data PatternSegment : Type 0 where
  literal glob : Text → PatternSegment
  double_star : PatternSegment

compile_segment : Text → PatternSegment
compile_segment segment =
    if text_eq segment (codes "**")
    then double_star
    else if has_byte star segment || has_byte question segment
    then glob segment
    else literal segment

unfoldable pub compile_segments : List Text → List PatternSegment
unfolding compile_segment
compile_segments [] = []
compile_segments (segment ∷ rest) =
    let compiled = compile_segments rest in
    if is_empty segment then compiled else compile_segment segment ∷ compiled

-- `pattern[1..]` of a pattern that starts with '/'
abbrev behind_slash : Text → Text
behind_slash [] = []
behind_slash (c ∷ cs) = cs

unfoldable pub compile_pattern : Text → Parsed (List PatternSegment)
compile_pattern pattern =
    if starts_with_slash pattern
    then ok (compile_segments (split (behind_slash pattern)))
    else invalid_path_or_name pattern

-- The loop of `literal_prefix`: the path, and what is left of the pattern behind the count; none is
-- the `expect`.
unfoldable pub literal_prefix_from :
    VirtualPath → List PatternSegment → Option (VirtualPath × List PatternSegment)
literal_prefix_from path [] = some (path, [])
literal_prefix_from path (double_star ∷ rest) = some (path, double_star ∷ rest)
literal_prefix_from path (glob pattern ∷ rest) = some (path, glob pattern ∷ rest)
literal_prefix_from path (literal name ∷ rest) = elim (join path name) [
  | ok longer ↦ literal_prefix_from longer rest
  | invalid_path_or_name _ ↦ none
]

unfoldable pub literal_prefix : List PatternSegment → Option (VirtualPath × List PatternSegment)
literal_prefix segments = literal_prefix_from root segments

-- `star` and `match_from`: what stands behind the star in the pattern, and where its match began
abbrev pub Resume : Type 0
Resume = Option (Text × Text)

-- the last loop: stars at the end of the pattern
unfoldable pub only_stars : Text → Bool
only_stars [] = true
only_stars (x ∷ pattern) = x == star && only_stars pattern

-- The branch that goes back to the last star, with one character more under it. `match_from` stays
-- below the length of the text, so that a text with no character is never met there.
unfoldable pub resume : Resume → (Text → Text → Resume → Option Bool) → Option Bool
resume none next = some false
resume (some (pattern, [])) next = none
resume (some (pattern, c ∷ text)) next = next pattern text (some (pattern, text))

-- The loop of `wildcard_match`: the pattern from `pi` on and the text from `ti` on. `none` is a
-- loop that has used up its rounds.
unfoldable pub wildcard_loop : ℕ → Text → Text → Resume → Option Bool
unfolding resume
wildcard_loop zero pattern text saved = none
wildcard_loop (suc rounds) pattern [] saved = some (only_stars pattern)
wildcard_loop (suc rounds) [] (c ∷ text) saved = resume saved (wildcard_loop rounds)
wildcard_loop (suc rounds) (x ∷ pattern) (c ∷ text) saved = elim (x == question || x == c) [
  | true ↦ wildcard_loop rounds pattern text saved
  | false ↦ elim (x == star) [
    | true ↦ wildcard_loop rounds pattern (c ∷ text) (some (pattern, c ∷ text))
    | false ↦ resume saved (wildcard_loop rounds)
  ]
]

unfoldable pub wildcard_match : Text → Text → Option Bool
wildcard_match pattern text =
    wildcard_loop (suc ((length text + 1) * (length pattern + 1))) pattern text none

-- `segment_matches`, for the segments that `glob_match` asks about
unfoldable pub segment_matches : PatternSegment → Text → Bool
segment_matches (literal expected) name = text_eq expected name
segment_matches (glob pattern) name = elim (wildcard_match pattern name) [
  | none ↦ false
  | some b ↦ b
]
segment_matches double_star name = false

-- The rows of `dp`. A row has a cell for each number of candidate segments, from none on.
unfoldable pub first_row : List Text → List Bool
first_row [] = []
first_row (name ∷ candidate) = false ∷ first_row candidate

-- the cells `dp[i][j]` from the first on, for a segment that is no "**"; `here` is the first one
unfoldable pub segment_row : PatternSegment → Bool → List Bool → List Text → List Bool
segment_row segment here [] candidate = []
segment_row segment here (above ∷ row) [] = here ∷ []
segment_row segment here (above ∷ row) (name ∷ candidate) =
    here ∷ segment_row segment (above && segment_matches segment name) row candidate

-- the cells for a "**": the one above, or the one on the left
unfoldable pub double_star_row : Bool → List Bool → List Bool
double_star_row left [] = []
double_star_row left (above ∷ row) = let here = above || left in here ∷ double_star_row here row

unfoldable pub next_row : PatternSegment → List Bool → List Text → List Bool
next_row double_star row candidate = double_star_row false row
next_row (literal name) row candidate = segment_row (literal name) false row candidate
next_row (glob pattern) row candidate = segment_row (glob pattern) false row candidate

unfoldable pub last_cell : List Bool → Bool
last_cell [] = false
last_cell (b ∷ []) = b
last_cell (b ∷ c ∷ row) = last_cell (c ∷ row)

unfoldable pub glob_rows : List PatternSegment → List Bool → List Text → Bool
glob_rows [] row candidate = last_cell row
glob_rows (segment ∷ pattern) row candidate =
    glob_rows pattern (next_row segment row candidate) candidate

unfoldable pub glob_match : List PatternSegment → List Text → Bool
glob_match pattern candidate = glob_rows pattern (true ∷ first_row candidate) candidate
