-- ===== src/Search/Pieces.antt =====
-- One chunk of a file, and the matches in a buffer, for `search_file` of
-- crates/fslite-sqlite/src/search.rs.
use mathlib.Core.List.{map}
use fslite.Common.{
  ℕ, suc, ◌+◌, ◌-◌, ◌*◌, ◌≤◌, ◌<◌, ◌≡◌, refl, sym, ap, ◌∙◌, List, [], ◌∷◌, ◌++◌, Text, length, take,
  drop, length-append, length-drop, length-take, take-drop, drop-drop, drop_all, take_all, leb, inl,
  inr, ◌⊎◌, Bool-cases, arith,
}
use fslite.Schema.{RawNode, Db}
use fslite.Sql.{done}
use fslite.Content.Chunks.{chunk_size, fetch_chunk_bytes}
use fslite.Content.Stored.{Holds}
use package.fslite.Search.Contents.{
  RawSearchMatch, occurrences, find_all_occurrences, match_at, next_overlap_start,
}
use package.fslite.Search.Occurrences.{occurrences-append, occurrences-map}

-- where a match starts and ends
abbrev pub span_of : RawSearchMatch → ℕ × ℕ
span_of m = (m.start, m.end)

abbrev pub spans : Text → List ℕ → List (ℕ × ℕ)
spans needle starts = map (λ s. (s, s + length needle)) starts

pub fetched :
    (db : Db) (g : ℕ) (content : Text) (index : ℕ)
    → Holds db.chunks g content
    → fetch_chunk_bytes g index db ≡ done (take chunk_size (drop (index * chunk_size) content)) db
unfolding fetch_chunk_bytes
fetched db g content index holds = ap (λ b. done b db) (holds index)

pub no_chunk :
    (content : Text) (index : ℕ)
    → length content ≤ index * chunk_size
    → take chunk_size (drop (index * chunk_size) content) ≡ []
no_chunk content index over =
    ap (take chunk_size) (drop_all (index * chunk_size) content over)
    ∙ take_all chunk_size [] (omega arith)

length-take_drop : (m : ℕ) (text : Text) → length (take m text) + (length text - m) ≡ length text
length-take_drop m text =
    let behind = length-drop m text in
    let both = length-append (take m text) (drop m text) in
    let whole = ap length (take-drop m text) in omega arith

-- the chunk, and what is behind it
pub next_chunk :
    (content : Text) (index : ℕ)
    → index * chunk_size < length content
    → (drop (index * chunk_size) content
        ≡ take chunk_size (drop (index * chunk_size) content)
          ++ drop (suc index * chunk_size) content)
      × (length (take chunk_size (drop (index * chunk_size) content))
            + (length content - suc index * chunk_size)
          ≡ length content - index * chunk_size)
      × (0 < length (take chunk_size (drop (index * chunk_size) content)))
next_chunk content index more =
    let rest = drop (index * chunk_size) content in
    let behind = length-drop (index * chunk_size) content in
    let size = length-take_drop chunk_size rest in
    (
      sym (take-drop chunk_size rest)
          ∙ ap (λ t. take chunk_size rest ++ t)
              (drop-drop chunk_size (index * chunk_size) content
                ∙ ap (λ m. drop m content) (omega arith)),
      omega arith,
      some_byte rest (omega arith),
    )
  where
    some_byte : (text : Text) → 0 < length text → 0 < length (take chunk_size text)
    some_byte [] h = absurd (omega arith)
    some_byte (c ∷ text) h = omega arith

module _ (node : RawNode) (path : Text) (n : ℕ) (ns : Text) where
  -- the matches in a buffer
  pub spans-found :
      (buffer : Text) (base : ℕ) (starts : List ℕ)
      → map span_of (map (match_at node path (n ∷ ns) buffer base) starts)
        ≡ spans (n ∷ ns) (map (λ s. base + s) starts)
  unfolding match_at
  spans-found buffer base [] = refl
  spans-found buffer base (s ∷ starts) =
      ap (λ l. (base + s, base + s + suc (length ns)) ∷ l) (spans-found buffer base starts)

  pub map-append :
      (xs ys : List RawSearchMatch) → map span_of (xs ++ ys) ≡ map span_of xs ++ map span_of ys
  map-append [] ys = refl
  map-append (x ∷ xs) ys = ap (λ l. span_of x ∷ l) (map-append xs ys)

  pub spans-append :
      (xs ys : List ℕ) → spans (n ∷ ns) (xs ++ ys) ≡ spans (n ∷ ns) xs ++ spans (n ∷ ns) ys
  spans-append [] ys = refl
  spans-append (x ∷ xs) ys = ap (λ l. (x, x + suc (length ns)) ∷ l) (spans-append xs ys)

  -- One chunk: the places in the buffer, and those in the overlap and what follows.
  pub buffer_places :
      (buffer rest : Text) (base : ℕ)
      → occurrences (n ∷ ns) base (buffer ++ rest)
        ≡ map (λ s. base + s) (find_all_occurrences buffer (n ∷ ns))
          ++ occurrences
              (n ∷ ns)
              (base + next_overlap_start (n ∷ ns) buffer)
              (drop (next_overlap_start (n ∷ ns) buffer) buffer ++ rest)
  unfolding find_all_occurrences
  buffer_places buffer rest base =
      let o = next_overlap_start (n ∷ ns) buffer in
      let whole = take-drop o buffer in
      let first = length-take o buffer (omega arith) in
      let middle = length-drop o buffer in
      ap (λ t. occurrences (n ∷ ns) base (t ++ rest)) (sym whole)
      ∙ occurrences-append (n ∷ ns) (take o buffer) base (drop o buffer) rest (omega arith)
          (reach buffer)
      ∙ ap
          (λ t.
            occurrences (n ∷ ns) base t
            ++ occurrences (n ∷ ns) (base + length (take o buffer)) (drop o buffer ++ rest))
          whole
      ∙ ap
          (λ m.
            occurrences (n ∷ ns) base buffer
            ++ occurrences (n ∷ ns) (base + m) (drop o buffer ++ rest))
          first
      ∙ ap (λ l. l ++ occurrences (n ∷ ns) (base + o) (drop o buffer ++ rest))
          (ap (λ s. occurrences (n ∷ ns) s buffer) {x = base} {y = base + 0} (omega arith)
            ∙ sym (occurrences-map (n ∷ ns) base 0 buffer))
    where
      reach :
          (buffer : Text)
          → (take (next_overlap_start (n ∷ ns) buffer) buffer ≡ [])
            ⊎ (length (n ∷ ns) ≤ suc (length (drop (next_overlap_start (n ∷ ns) buffer) buffer)))
      reach buffer =
          let middle = length-drop (next_overlap_start (n ∷ ns) buffer) buffer in
          elim (Bool-cases (leb (length buffer) (length ns))) [
            | inl e ↦ inl (
                ap (λ m. take m buffer) {x = next_overlap_start (n ∷ ns) buffer} {y = 0}
                  (ground arith))
            | inr e ↦ inr (ground arith)
          ]
