-- ===== src/Path.antt =====
-- crates/fslite-core/src/path.rs: `VirtualPath` and `LinkTarget`.
pub mod Split
pub mod Canonical
pub mod Parent
pub mod Within
pub mod Target
use fslite.Common.{
  ℕ, suc, Bool, true, false, not, ◌&&◌, ◌||◌, Option, none, some, List, [], ◌∷◌, ◌++◌, reverse,
  Text, codes, text_eq, has_byte, length, take, get_last?, ◌==◌, if◌then◌else◌,
}

-- `FsResult` of the parsers here: the only error is `invalid_path_or_name` of the input.
pub data Parsed {ℓ} (A : Type ℓ) : Type ℓ where
  ok : A → Parsed A
  invalid_path_or_name : Text → Parsed A

pub record VirtualPath : Type 0 where
  pub canonical : Text

pub record LinkTarget : Type 0 where
  pub canonical : Text

abbrev pub slash : ℕ
slash = b'/'

abbrev pub nul : ℕ
nul = 0

-- `str::split('/')`
unfoldable pub cons_head : ℕ → List Text → List Text
cons_head c [] = (c ∷ []) ∷ []
cons_head c (x ∷ xs) = (c ∷ x) ∷ xs

unfoldable pub split : Text → List Text
unfolding cons_head
split [] = [] ∷ []
split (c ∷ cs) = let rest = split cs in if c == slash then [] ∷ rest else cons_head c rest

-- `str::starts_with('/')`
unfoldable pub starts_with_slash : Text → Bool
starts_with_slash [] = false
starts_with_slash (c ∷ cs) = c == slash

-- `str::is_empty`
unfoldable pub is_empty : Text → Bool
is_empty [] = true
is_empty (c ∷ cs) = false

abbrev pub pop : List Text → List Text
pop [] = []
pop (x ∷ xs) = xs

-- One round of the loop of `normalize`. The vector is kept with its last element first.
unfoldable pub push_segment : List Text → Text → List Text
push_segment normalized segment =
    if is_empty segment || text_eq segment (codes ".")
    then normalized
    else if text_eq segment (codes "..")
    then pop normalized
    else segment ∷ normalized

unfoldable pub normalize_onto : List Text → List Text → List Text
normalize_onto normalized [] = normalized
normalize_onto normalized (segment ∷ rest) = normalize_onto (push_segment normalized segment) rest

-- The second loop of `normalize`: '/' and a segment, again and again.
unfoldable pub concat_segments : List Text → Text
concat_segments [] = []
concat_segments (segment ∷ rest) = (slash ∷ segment) ++ concat_segments rest

unfoldable pub render : List Text → Text
render [] = slash ∷ []
render (segment ∷ rest) = concat_segments (segment ∷ rest)

unfoldable pub normalize : List Text → Text
normalize segments = render (reverse (normalize_onto [] segments))

unfoldable pub parse : Text → Parsed VirtualPath
parse input =
    if not (starts_with_slash input) || has_byte nul input
    then invalid_path_or_name input
    else ok (record { canonical = normalize (split input) })

abbrev pub root : VirtualPath
root = record { canonical = slash ∷ [] }

-- `str::rfind('/')`
unfoldable pub rfind_slash : Text → Option ℕ
rfind_slash [] = none
rfind_slash (c ∷ cs) = elim (rfind_slash cs) [
  | some i ↦ some (suc i)
  | none ↦ if c == slash then some 0 else none
]

unfoldable pub name : VirtualPath → Option Text
name p = if length p.canonical == 1 then none else get_last? (split p.canonical)

parent_at : VirtualPath → Option ℕ → Option VirtualPath
parent_at p none = none
parent_at p (some separator) =
    if separator == 0
    then (if length p.canonical == 1 then none else some root)
    else some (record { canonical = take separator p.canonical })

unfoldable pub parent : VirtualPath → Option VirtualPath
unfolding parent_at
parent p = parent_at p (rfind_slash p.canonical)

abbrev drop_empty : List Text → List Text
drop_empty [] = []
drop_empty (x ∷ xs) = let rest = drop_empty xs in if is_empty x then rest else x ∷ rest

-- `self.canonical[1..]`
abbrev after_first : Text → Text
after_first [] = []
after_first (c ∷ cs) = cs

unfoldable pub segments : VirtualPath → List Text
segments p = drop_empty (split (after_first p.canonical))

unfoldable pub join : VirtualPath → Text → Parsed VirtualPath
join p relative =
    if starts_with_slash relative || has_byte nul relative
    then invalid_path_or_name relative
    else ok (record { canonical = normalize (segments p ++ split relative) })

-- One round of the loop of `normalize_relative`.
unfoldable pub push_relative : List Text → Text → List Text
push_relative [] segment =
    if is_empty segment || text_eq segment (codes ".") then [] else segment ∷ []
push_relative (last ∷ below) segment =
    if is_empty segment || text_eq segment (codes ".")
    then last ∷ below
    else if text_eq segment (codes "..") && not (text_eq last (codes ".."))
    then below
    else segment ∷ last ∷ below

unfoldable pub normalize_relative_onto : List Text → List Text → List Text
normalize_relative_onto normalized [] = normalized
normalize_relative_onto normalized (segment ∷ rest) =
    normalize_relative_onto (push_relative normalized segment) rest

-- `Vec::join("/")`
unfoldable pub join_slash : List Text → Text
join_slash [] = []
join_slash (x ∷ []) = x
join_slash (x ∷ y ∷ ys) = x ++ slash ∷ join_slash (y ∷ ys)

unfoldable pub render_relative : List Text → Text
render_relative [] = codes "."
render_relative (x ∷ xs) = join_slash (x ∷ xs)

unfoldable pub normalize_relative : List Text → Text
normalize_relative segments = render_relative (reverse (normalize_relative_onto [] segments))

unfoldable pub parse_target : Text → Parsed LinkTarget
parse_target input =
    if is_empty input || has_byte nul input
    then invalid_path_or_name input
    else ok (record {
      canonical =
          if starts_with_slash input
          then normalize (split input)
          else normalize_relative (split input);
    })

unfoldable pub is_absolute : LinkTarget → Bool
is_absolute t = starts_with_slash t.canonical

-- `is_same_or_descendant` of crates/fslite-sqlite/src/mutate.rs; `str::starts_with`
abbrev pub starts_with : Text → Text → Bool
starts_with t [] = true
starts_with [] (c ∷ cs) = false
starts_with (b ∷ bs) (c ∷ cs) = b == c && starts_with bs cs

unfoldable pub is_same_or_descendant : VirtualPath → VirtualPath → Bool
is_same_or_descendant ancestor candidate =
    let prefix =
      if text_eq ancestor.canonical (codes "/")
      then codes "/"
      else ancestor.canonical ++ slash ∷ [] in
    if text_eq candidate.canonical ancestor.canonical
    then true
    else starts_with candidate.canonical prefix
