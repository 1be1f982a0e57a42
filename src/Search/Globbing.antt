-- ===== src/Search/Globbing.antt =====
-- `glob_match` of crates/fslite-sqlite/src/search.rs and plain backtracking.
use fslite.Common.{
  suc, ◌≡◌, refl, sym, ap, ◌∙◌, Bool, true, false, ◌&&◌, ◌||◌, List, [], ◌∷◌, Text, length, arith,
}
use package.fslite.Search.{
  PatternSegment, literal, glob, double_star, segment_matches, first_row, segment_row,
  double_star_row, next_row, last_cell, glob_rows, glob_match,
}

-- What it is to match: "**" stands for any number of segments, every other for one.
unfoldable pub matches_by_hand : List PatternSegment → List Text → Bool
matches_by_hand [] [] = true
matches_by_hand [] (name ∷ candidate) = false
matches_by_hand (double_star ∷ pattern) [] = matches_by_hand pattern []
matches_by_hand (double_star ∷ pattern) (name ∷ candidate) =
    matches_by_hand pattern (name ∷ candidate) || matches_by_hand (double_star ∷ pattern) candidate
matches_by_hand (literal text ∷ pattern) [] = false
matches_by_hand (literal text ∷ pattern) (name ∷ candidate) =
    segment_matches (literal text) name && matches_by_hand pattern candidate
matches_by_hand (glob text ∷ pattern) [] = false
matches_by_hand (glob text ∷ pattern) (name ∷ candidate) =
    segment_matches (glob text) name && matches_by_hand pattern candidate

-- Some cell of the row is true from where the rest of the pattern matches the rest.
reaches : List Bool → List Text → List PatternSegment → Bool
unfolding matches_by_hand
reaches [] candidate rest = false
reaches (b ∷ row) [] rest = b && matches_by_hand rest []
reaches (b ∷ row) (name ∷ candidate) rest =
    (b && matches_by_hand rest (name ∷ candidate)) || reaches row candidate rest

-- a row with one cell more than the candidate has segments
abbrev Fills : List Bool → List Text → Type 0
Fills row candidate = length row ≡ suc (length candidate)

length-segment_row :
    (s : PatternSegment) (row : List Bool) (candidate : List Text) (here : Bool)
    → Fills row candidate
    → Fills (segment_row s here row candidate) candidate
unfolding segment_row
length-segment_row s [] candidate here h = omega arith
length-segment_row s (above ∷ row) [] here h = refl
length-segment_row s (above ∷ row) (name ∷ candidate) here h =
    ap suc (length-segment_row s row candidate (above && segment_matches s name) (omega arith))

length-double_star_row :
    (left : Bool) (row : List Bool) → length (double_star_row left row) ≡ length row
unfolding double_star_row
length-double_star_row left [] = refl
length-double_star_row left (above ∷ row) = ap suc (length-double_star_row (above || left) row)

regroup_segment : (u a s m r : Bool) → (u || ((a && s && m) || r)) ≡ (u || ((a && (s && m)) || r))
regroup_segment u a s m r = ground arith

regroup_star :
    (a l m d r : Bool)
    → (((a || l) && m) || (((a || l) && d) || r)) ≡ ((l && (m || d)) || ((a && (m || d)) || r))
regroup_star a l m d r = ground arith

-- a row for a segment that is no "**", which stands for exactly one of the candidate's
reaches-segment_row :
    (s : PatternSegment) (rest : List PatternSegment)
    → ((name : Text) (c : List Text)
        → matches_by_hand (s ∷ rest) (name ∷ c)
          ≡ (segment_matches s name && matches_by_hand rest c))
    → matches_by_hand (s ∷ rest) [] ≡ false
    → (here : Bool) (row : List Bool) (candidate : List Text) → Fills row candidate
    → reaches (segment_row s here row candidate) candidate rest
      ≡ ((here && matches_by_hand rest candidate) || reaches row candidate (s ∷ rest))
unfolding segment_row reaches
reaches-segment_row s rest one none here [] candidate h = absurd (omega arith)
reaches-segment_row s rest one none here (above ∷ row) [] h = rw none (ground arith)
reaches-segment_row s rest one none here (above ∷ row) (name ∷ candidate) h =
    rw
      (
        one,
        reaches-segment_row s rest one none (above && segment_matches s name) row candidate
            (omega arith),
      )
      (regroup_segment (here && matches_by_hand rest (name ∷ candidate)) above
        (segment_matches s name) (matches_by_hand rest candidate)
        (reaches row candidate (s ∷ rest)))

-- a row for "**"
reaches-double_star_row :
    (rest : List PatternSegment) (left : Bool) (row : List Bool) (candidate : List Text)
    → Fills row candidate
    → reaches (double_star_row left row) candidate rest ≡ (
        (left && matches_by_hand (double_star ∷ rest) candidate)
        || reaches row candidate (double_star ∷ rest))
unfolding double_star_row reaches matches_by_hand
reaches-double_star_row rest left [] candidate h = absurd (omega arith)
reaches-double_star_row rest left (above ∷ row) [] h = ground arith
reaches-double_star_row rest left (above ∷ row) (name ∷ candidate) h =
    rw (reaches-double_star_row rest (above || left) row candidate (omega arith)) (
      regroup_star above left (matches_by_hand rest (name ∷ candidate))
        (matches_by_hand (double_star ∷ rest) candidate)
        (reaches row candidate (double_star ∷ rest)))

reaches-next_row :
    (s : PatternSegment) (rest : List PatternSegment) (row : List Bool) (candidate : List Text)
    → Fills row candidate
    → reaches (next_row s row candidate) candidate rest ≡ reaches row candidate (s ∷ rest)
unfolding next_row matches_by_hand
reaches-next_row double_star rest row candidate h =
    reaches-double_star_row rest false row candidate h
reaches-next_row (literal t) rest row candidate h =
    reaches-segment_row (literal t) rest (λ n c. refl) refl false row candidate h
reaches-next_row (glob t) rest row candidate h =
    reaches-segment_row (glob t) rest (λ n c. refl) refl false row candidate h

next_row-Fills :
    (s : PatternSegment) (row : List Bool) (candidate : List Text)
    → Fills row candidate
    → Fills (next_row s row candidate) candidate
unfolding next_row
next_row-Fills double_star row candidate h = length-double_star_row false row ∙ h
next_row-Fills (literal t) row candidate h = length-segment_row (literal t) row candidate false h
next_row-Fills (glob t) row candidate h = length-segment_row (glob t) row candidate false h

-- behind the whole pattern, only the last cell counts
reaches-nil :
    (row : List Bool) (candidate : List Text)
    → Fills row candidate
    → reaches row candidate [] ≡ last_cell row
unfolding reaches last_cell matches_by_hand
reaches-nil [] candidate h = absurd (omega arith)
reaches-nil (b ∷ []) [] h = ground arith
reaches-nil (b ∷ c ∷ row) [] h = absurd (omega arith)
reaches-nil (b ∷ []) (name ∷ candidate) h = absurd (omega arith)
reaches-nil (b ∷ c ∷ row) (name ∷ candidate) h =
    let rest = reaches-nil (c ∷ row) candidate (omega arith) in ground arith

glob_rows-reaches :
    (pattern : List PatternSegment) (row : List Bool) (candidate : List Text)
    → Fills row candidate
    → glob_rows pattern row candidate ≡ reaches row candidate pattern
unfolding glob_rows
glob_rows-reaches [] row candidate h = sym (reaches-nil row candidate h)
glob_rows-reaches (s ∷ pattern) row candidate h =
    glob_rows-reaches pattern (next_row s row candidate) candidate
      (next_row-Fills s row candidate h)
    ∙ reaches-next_row s pattern row candidate h

first_row-Fills : (candidate : List Text) → Fills (true ∷ first_row candidate) candidate
unfolding first_row
first_row-Fills [] = refl
first_row-Fills (name ∷ candidate) = ap suc (first_row-Fills candidate)

reaches-first_row :
    (pattern : List PatternSegment) (candidate : List Text)
    → reaches (false ∷ first_row candidate) candidate pattern ≡ false
unfolding first_row reaches
reaches-first_row pattern [] = refl
reaches-first_row pattern (name ∷ candidate) = reaches-first_row pattern candidate

starts :
    (pattern : List PatternSegment) (candidate : List Text)
    → reaches (true ∷ first_row candidate) candidate pattern ≡ matches_by_hand pattern candidate
unfolding reaches first_row
starts pattern [] = refl
starts pattern (name ∷ candidate) =
    let no_other = reaches-first_row pattern candidate in ground arith

-- The table of `glob_match` gives what backtracking gives: "**" stands for any number of segments,
-- also none, and every other pattern segment for exactly one that it matches.
pub glob_match-matches_by_hand :
    (pattern : List PatternSegment) (candidate : List Text)
    → glob_match pattern candidate ≡ matches_by_hand pattern candidate
unfolding glob_match
glob_match-matches_by_hand pattern candidate =
    glob_rows-reaches pattern (true ∷ first_row candidate) candidate (first_row-Fills candidate)
    ∙ starts pattern candidate
