-- ===== src/Search/Contents.antt =====
-- `search_file` of crates/fslite-sqlite/src/search.rs.
use mathlib.Core.List.{map}
use fslite.Common.{
  ℕ, zero, suc, ◌+◌, ◌-◌, Bool, true, false, ◌&&◌, Option, none, some, List, [], ◌∷◌, ◌++◌, Text,
  length, take, drop, min, leb, ◌==◌, if◌then◌else◌,
}
use fslite.Schema.{RawNode}
use fslite.Sql.{Sql, done, diverged, ◌>>=◌, pure}
use fslite.Content.Chunks.{fetch_chunk_bytes}

abbrev pub search_byte_budget : ℕ
search_byte_budget = 16777216

abbrev pub preview_context_bytes : ℕ
preview_context_bytes = 32

-- the slice of that length at the start is the needle
unfoldable pub starts_with : Text → Text → Bool
starts_with [] haystack = true
starts_with (n ∷ needle) [] = false
starts_with (n ∷ needle) (h ∷ haystack) = n == h && starts_with needle haystack

-- the places of the needle, counted from one on; behind the last place where it fits there is none
unfoldable pub occurrences : Text → ℕ → Text → List ℕ
occurrences needle start [] = []
occurrences needle start (h ∷ haystack) =
    let rest = occurrences needle (suc start) haystack in
    if starts_with needle (h ∷ haystack) then start ∷ rest else rest

unfoldable pub find_all_occurrences : Text → Text → List ℕ
find_all_occurrences haystack [] = []
find_all_occurrences haystack (n ∷ needle) = occurrences (n ∷ needle) 0 haystack

pub record RawSearchMatch : Type 0 where
  pub node : RawNode
  pub relative_path : Text
  pub start : ℕ
  pub end : ℕ
  pub preview : Text

-- `keep` bytes of the buffer stay for the next round
abbrev pub next_overlap_start : Text → Text → ℕ
next_overlap_start needle buffer = length buffer - (length needle - 1)

module _ (node : RawNode) (relative_path needle : Text) where
  -- a match in the buffer, which starts at `base` in the file
  unfoldable pub match_at : Text → ℕ → ℕ → RawSearchMatch
  match_at buffer base start =
      let preview_start = start - preview_context_bytes in
      let preview_end = min (start + length needle + preview_context_bytes) (length buffer) in
      record {
        node = node;
        relative_path = relative_path;
        start = base + start;
        end = base + start + length needle;
        preview = take (preview_end - preview_start) (drop preview_start buffer);
      }

  -- one chunk that was fetched, with the rounds behind it
  unfoldable pub search_chunk :
      (Text → ℕ → ℕ → Sql (List RawSearchMatch × ℕ))
      → Text
      → ℕ
      → ℕ
      → Text
      → Sql (List RawSearchMatch × ℕ)
  unfolding match_at
  search_chunk next overlap buffer_base bytes_scanned [] = pure ([], bytes_scanned)
  search_chunk next overlap buffer_base bytes_scanned (b ∷ bytes) = do
    let buffer = overlap ++ b ∷ bytes
    rest ←
        next (drop (next_overlap_start needle buffer) buffer)
          (buffer_base + next_overlap_start needle buffer) (bytes_scanned + length (b ∷ bytes))
    pure (map (match_at buffer buffer_base) (find_all_occurrences buffer needle) ++ rest.0, rest.1)

  -- The loop, with the matches of the chunks that are left and the bytes scanned then.
  unfoldable pub search_loop : ℕ → ℕ → ℕ → Text → ℕ → ℕ → Sql (List RawSearchMatch × ℕ)
  unfolding search_chunk
  search_loop zero generation chunk_index overlap buffer_base bytes_scanned db = diverged
  search_loop (suc rounds) generation chunk_index overlap buffer_base bytes_scanned db =
      elim (leb search_byte_budget bytes_scanned) [
        | true ↦ done ([], bytes_scanned) db
        | false ↦
            (fetch_chunk_bytes generation chunk_index
                >>= search_chunk (search_loop rounds generation (suc chunk_index)) overlap
                    buffer_base bytes_scanned)
              db
      ]

  -- Each round scans a byte at least, until the budget is used up.
  unfoldable pub search_generation : Option ℕ → ℕ → Sql (List RawSearchMatch × ℕ)
  search_generation none bytes_scanned = pure ([], bytes_scanned)
  search_generation (some generation) bytes_scanned =
      search_loop (suc search_byte_budget) generation 0 [] 0 bytes_scanned

  unfoldable pub search_file : ℕ → Sql (List RawSearchMatch × ℕ)
  unfolding search_generation
  search_file bytes_scanned = search_generation node.content_generation_id bytes_scanned
