-- ===== src/Tests/Paths.antt =====
-- The theorems on paths, at concrete texts.
use fslite.Path.{
  normalize_relative, render_relative, normalize_relative_onto, push_relative, join_slash,
}
use fslite.Path.{starts_with_slash, normalize, push_segment}
use fslite.Path.{render, concat_segments}
use fslite.Path.{is_empty}
use fslite.Common.{◌≡◌, refl, ◌↔◌, true, some, List, [], ◌∷◌, ◌++◌, Text, codes, reverse}
use fslite.Path.{
  ok, VirtualPath, slash, parse, join, name, parent, segments, split, normalize_onto,
  is_same_or_descendant, parse_target,
}
use fslite.Path.Split.{IsSegment}
use fslite.Path.Canonical.{
  IsPathOf, IsCanonical, parse-IsCanonical, parse-canonical, segments-IsPathOf, join-parse,
  join-IsPathOf,
}
use fslite.Path.Parent.{name-parent-join}
use fslite.Path.Within.{IsPrefixOf, is_same_or_descendant_iff}
use fslite.Path.Target.{parse_target-canonical}
use package.fslite.Tests.{path_of}

a-IsSegment : IsSegment (codes "a")
unfolding is_empty
a-IsSegment = record {
  no_slash = refl;
  no_nul = refl;
  not_empty = refl;
  not_dot = refl;
  not_dots = refl;
}

b-IsSegment : IsSegment (codes "b")
unfolding is_empty
b-IsSegment = record {
  no_slash = refl;
  no_nul = refl;
  not_empty = refl;
  not_dot = refl;
  not_dots = refl;
}

abbrev ab : List Text
ab = codes "a" ∷ codes "b" ∷ []

ab-IsPathOf : IsPathOf ab (path_of (codes "/a/b"))
unfolding render concat_segments
ab-IsPathOf = ((a-IsSegment, (b-IsSegment, tt)), refl)

a-IsPathOf : IsPathOf (codes "a" ∷ []) (path_of (codes "/a"))
unfolding render concat_segments
a-IsPathOf = ((a-IsSegment, tt), refl)

parse-IsCanonical_example : IsCanonical (path_of (codes "/a/b"))
unfolding parse starts_with_slash normalize render normalize_onto split push_segment is_empty
    concat_segments
parse-IsCanonical_example = parse-IsCanonical (codes "//a/x/.././b/") (path_of (codes "/a/b")) refl

parse-canonical_example : parse (codes "/a/b") ≡ ok (path_of (codes "/a/b"))
parse-canonical_example = parse-canonical (path_of (codes "/a/b")) (ab, ab-IsPathOf)

segments-IsPathOf_example : segments (path_of (codes "/a/b")) ≡ ab
segments-IsPathOf_example = segments-IsPathOf ab (path_of (codes "/a/b")) ab-IsPathOf

join-parse_example :
    join (path_of (codes "/a/b")) (codes "../c") ≡ parse (codes "/a/b" ++ slash ∷ codes "../c")
unfolding starts_with_slash
join-parse_example = join-parse (path_of (codes "/a/b")) (codes "../c") (ab, ab-IsPathOf) refl refl

join-IsPathOf_example :
    IsPathOf
      (reverse (normalize_onto (reverse ab) (split (codes "../../../b"))))
      (path_of (codes "/b"))
unfolding join starts_with_slash normalize render normalize_onto segments split is_empty
    push_segment concat_segments
join-IsPathOf_example =
    join-IsPathOf ab (path_of (codes "/a/b")) (path_of (codes "/b")) (codes "../../../b")
      ab-IsPathOf refl

name-parent-join_example :
    (q : VirtualPath) × (name (path_of (codes "/a/b")) ≡ some (codes "b"))
    × (parent (path_of (codes "/a/b")) ≡ some q)
    × IsPathOf (codes "a" ∷ []) q
    × (join q (codes "b") ≡ ok (path_of (codes "/a/b")))
name-parent-join_example =
    name-parent-join (codes "a" ∷ []) (codes "b") (path_of (codes "/a/b")) ab-IsPathOf

is_same_or_descendant_iff_example :
    (is_same_or_descendant (path_of (codes "/a")) (path_of (codes "/a/b")) ≡ true)
    ↔ IsPrefixOf (codes "a" ∷ []) ab
is_same_or_descendant_iff_example =
    is_same_or_descendant_iff (codes "a" ∷ []) ab (path_of (codes "/a")) (path_of (codes "/a/b"))
      a-IsPathOf ab-IsPathOf

parse_target-canonical_example :
    parse_target (codes "../b") ≡ ok (record { canonical = codes "../b" })
unfolding parse_target is_empty starts_with_slash normalize_relative render_relative
    normalize_relative_onto split push_relative join_slash
parse_target-canonical_example =
    parse_target-canonical (codes "./a/../../b/") (record { canonical = codes "../b" }) refl
