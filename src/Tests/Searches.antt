-- ===== src/Tests/Searches.antt =====
-- The theorems on patterns and on searching a file, and a run of the wildcard loop.
use fslite.Common.{◌≡◌, refl, false, some, [], ◌∷◌, codes, arith}
use fslite.Search.{
  literal, double_star, glob_match, wildcard_match, wildcard_loop, resume, only_stars,
}
use fslite.Search.Contents.{find_all_occurrences, occurrences, starts_with, search_file}
use fslite.Search.Found.{Finds, search_file-Finds}
use package.fslite.Tests.Contents.{written_db, written_row, written_db-Holds}
use fslite.Search.Globbing.{matches_by_hand, glob_match-matches_by_hand}
use fslite.Search.Wildcard.{Fits, Answers, wildcard_match-Answers}

glob_match-matches_by_hand_example :
    glob_match (double_star ∷ literal (codes "c") ∷ []) (codes "a" ∷ codes "b" ∷ codes "c" ∷ [])
    ≡ matches_by_hand
        (double_star ∷ literal (codes "c") ∷ [])
        (codes "a" ∷ codes "b" ∷ codes "c" ∷ [])
glob_match-matches_by_hand_example =
    glob_match-matches_by_hand (double_star ∷ literal (codes "c") ∷ [])
      (codes "a" ∷ codes "b" ∷ codes "c" ∷ [])

wildcard_match-Answers_example :
    Answers (Fits (codes "a*b?") (codes "axxbc")) (wildcard_match (codes "a*b?") (codes "axxbc"))
wildcard_match-Answers_example = wildcard_match-Answers (codes "a*b?") (codes "axxbc") refl

-- A star of the pattern that meets a star of the text is used up by it: "*" does not match "*abc".
star_used_up : wildcard_match (codes "*") (codes "*abc") ≡ some false
unfolding wildcard_match wildcard_loop resume only_stars
star_used_up = refl

-- a file of which nothing was scanned yet
search_file-Finds_example :
    Finds written_db
      (codes "b")
      (find_all_occurrences (codes "abc") (codes "b"))
      3
      (search_file written_row (codes "docs/a") (codes "b") 0 written_db)
search_file-Finds_example =
    search_file-Finds written_row (codes "docs/a") 98 [] written_db 5 (codes "abc") 0 refl
      written_db-Holds (omega arith)

-- overlapping places are found, each once
ana_in_bananas : find_all_occurrences (codes "bananas") (codes "ana") ≡ 1 ∷ 3 ∷ []
unfolding find_all_occurrences occurrences starts_with
ana_in_bananas = refl
