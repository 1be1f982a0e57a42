-- ===== src/Content/Ranges.antt =====
-- `copy_prefix_from`, `copy_suffix_from` and `zero_fill` of crates/fslite-sqlite/src/content.rs, as
-- a whole.
use Prim.Native.Nat.{◌/◌, ◌%◌}
use fslite.Common.{
  ℕ, zero, suc, ◌+◌, ◌-◌, ◌*◌, ◌≤◌, ◌<◌, ◌≡◌, sym, ap, subst, ◌∙◌, true, false, [], ◌∷◌, ◌++◌,
  append_assoc, append-nil, Text, length, take, replicate, min, segment, length-append, length-take,
  length-replicate, length-segment, take_split, ltb, ◌==◌, inl, inr, Bool-cases, arith,
}
use fslite.Fault.{ok}
use fslite.Schema.{Db}
use fslite.Sql.{returned, has_generation}
use package.fslite.Content.Chunks.{chunk_size, chunk_index_of, chunk_bytes}
use package.fslite.Content.Writer
use package.fslite.Content.Writer.{
  ChunkWriter, write_bytes, copy_whole_chunks, copy_remainder, copy_prefix_from, chunk_slice,
  copy_chunks_from, copy_suffix_from, zero_loop, zero_fill,
}
use package.fslite.Content.Stored.{Holds}
use package.fslite.Content.Filling.{Wrote}
use package.fslite.Content.Slicing.{low, chunk_slice-behind, segment-none, low_end, low_start}
use package.fslite.Content.Reading.{fetch-done}
use package.fslite.Content.Loop.{Ready, Wrote-then, Wrote-Ready, done-Wrote, write_bytes-Wrote}
use package.fslite.Content.Copying.{
  Unused, Holds-after, new-Ready, copy_whole_chunks-Wrote, copy_remainder-Wrote,
}

-- The first bytes of the old content, into a new writer.
pub copy_prefix_from-Wrote :
    (db : Db) (g max old : ℕ) (c : Text) (upto : ℕ)
    → has_generation db g ≡ true
    → Unused db g
    → (old == g) ≡ false
    → Holds db.chunks old c
    → upto ≤ length c
    → upto ≤ max
    → Wrote db g max (copy_prefix_from old upto (Writer.new g max) db) (take upto c)
unfolding copy_prefix_from
copy_prefix_from-Wrote db g max old c upto has un other h bound below =
    elim (Bool-cases (upto == 0)) [
      | inl e ↦ rw e (
          subst (Wrote db g max (returned (ok (Writer.new g max)) db))
            (sym (ap (λ m. take m c) {x = upto} {y = 0} (ground arith)))
            (done-Wrote db g max (Writer.new g max) [] (new-Ready db g max has un)))
      | inr e ↦ rw e (
          let n = upto / chunk_size in
          let k = upto % chunk_size in
          let w = copy_whole_chunks-Wrote db g max old c n has un h (omega arith) in
          let size = length-take (n * chunk_size) c (omega arith) in
          Wrote-then (copy_remainder old n k) w (
            subst
              (Wrote (record db { chunks = w.rows }) g max
                (copy_remainder old n k w.after (record db { chunks = w.rows })))
              (take_split (n * chunk_size) k c
                ∙ ap (λ m. take m c) {x = n * chunk_size + k} (omega arith))
              (copy_remainder-Wrote (record db { chunks = w.rows }) g max old c w.after
                (take (n * chunk_size) c) n k (Wrote-Ready has w) (Holds-after w old c other h)
                (omega arith) (omega arith) (omega arith))))
    ]

module _ (g max old from to : ℕ) (c : Text) where
  -- The chunks from one on that are left of the range.
  copy_chunks_from-Wrote :
      (left index : ℕ) (db : Db) (w : ChunkWriter) (content : Text)
      → Ready db g max w content
      → (old == g) ≡ false
      → Holds db.chunks old c
      → from < to
      → to ≤ length c
      → chunk_index_of from ≤ index
      → left + index ≡ suc (chunk_index_of (to - 1))
      → length content + length (segment c (low from index) to) ≤ max
      → Wrote db g max
          (copy_chunks_from left index old from to w db)
          (content ++ segment c (low from index) to)
  unfolding copy_chunks_from
  copy_chunks_from-Wrote zero index db w content r other h less bound first e below =
      subst (Wrote db g max (returned (ok w) db))
        (sym (append-nil content)
          ∙ ap (λ t. content ++ t)
              (sym (
                ap (λ i. segment c (low from i) to) {x = index} {y = suc (chunk_index_of (to - 1))}
                  (omega arith)
                ∙ segment-none c (low from (suc (chunk_index_of (to - 1)))) to
                    (low_end from to less))))
        (done-Wrote db g max w content r)
  copy_chunks_from-Wrote (suc left) index db w content r other h less bound first e below =
      let piece = chunk_slice from to index (chunk_bytes db.chunks old index) in
      let rest = segment c (low from (suc index)) to in
      let both =
        ap (λ t. chunk_slice from to index t ++ rest) (h index)
        ∙ chunk_slice-behind c from to index less first (omega arith) in
      let sizes = sym (length-append piece rest) ∙ ap length both in
      let longer = length-append content piece in
      let s = write_bytes-Wrote g max piece db w content r (omega arith) in
      rw (fetch-done db old index) (
        Wrote-then (copy_chunks_from left (suc index) old from to) s (
          subst
            (Wrote (record db { chunks = s.rows }) g max
              (copy_chunks_from left (suc index) old from to s.after
                (record db { chunks = s.rows })))
            (append_assoc content piece rest ∙ ap (λ t. content ++ t) both)
            (copy_chunks_from-Wrote left (suc index) (record db { chunks = s.rows }) s.after
              (content ++ piece) (Wrote-Ready r.exists s) other (Holds-after s old c other h) less
              bound (omega arith) (omega arith) (omega arith))))

  -- A part of the old content, behind what has been written.
  pub copy_suffix_from-Wrote :
      (db : Db) (w : ChunkWriter) (content : Text)
      → Ready db g max w content
      → (old == g) ≡ false
      → Holds db.chunks old c
      → to ≤ length c
      → length content + (to - from) ≤ max
      → Wrote db g max (copy_suffix_from old from to w db) (content ++ segment c from to)
  unfolding copy_suffix_from
  copy_suffix_from-Wrote db w content r other h bound below = elim (Bool-cases (ltb from to)) [
    | inl e ↦
        let same = ap (λ n. segment c n to) (low_start from) in
        let size = ap length same ∙ length-segment c from to (ground arith) bound in
        rw e (
          subst (Wrote db g max _) (ap (λ t. content ++ t) same) (
            copy_chunks_from-Wrote (suc (chunk_index_of (to - 1)) - chunk_index_of from)
              (chunk_index_of from) db w content r other h (ground arith) bound (omega arith)
              (ground arith) (omega arith)))
    | inr e ↦ rw e (
        subst (Wrote db g max (returned (ok w) db))
          (sym (append-nil content)
            ∙ ap (λ t. content ++ t) (sym (segment-none c from to (ground arith))))
          (done-Wrote db g max w content r))
  ]

abbrev pub zeros : ℕ → Text
zeros n = replicate n 0

pub length-zeros : (n : ℕ) → length (zeros n) ≡ n
length-zeros n = length-replicate n 0

min_bounds : (a b : ℕ) → 0 < a → 0 < b → (min a b ≤ a) × (0 < min a b)
min_bounds a b h k = (ground arith, ground arith)

module _ (g max : ℕ) where
  zeros-append : (n m : ℕ) → zeros n ++ zeros m ≡ zeros (n + m)
  zeros-append zero m = ap (λ k. zeros k) (omega arith)
  zeros-append (suc n) m =
      ap (λ t. 0 ∷ t) (zeros-append n m) ∙ ap (λ k. zeros k) {x = suc (n + m)} (omega arith)

  zero_loop-Wrote :
      (rounds remaining : ℕ) (db : Db) (w : ChunkWriter) (content : Text)
      → remaining ≤ rounds
      → Ready db g max w content
      → length content + remaining ≤ max
      → Wrote db g max (zero_loop rounds remaining w db) (content ++ zeros remaining)
  unfolding zero_loop
  zero_loop-Wrote rounds zero db w content enough r below =
      subst (Wrote db g max (returned (ok w) db)) (sym (append-nil content))
        (done-Wrote db g max w content r)
  zero_loop-Wrote zero (suc remaining) db w content enough r below = absurd (omega arith)
  zero_loop-Wrote (suc rounds) (suc remaining) db w content enough r below =
      let piece = min (suc remaining) chunk_size in
      let left = suc remaining - piece in
      let (small, some_taken) = min_bounds (suc remaining) chunk_size (omega arith) (omega arith) in
      let size = length-zeros piece in
      let longer = length-append content (zeros piece) in
      let s = write_bytes-Wrote g max (zeros piece) db w content r (omega arith) in
      Wrote-then (zero_loop rounds left) s (
        subst
          (Wrote (record db { chunks = s.rows }) g max
            (zero_loop rounds left s.after (record db { chunks = s.rows })))
          (append_assoc content (zeros piece) (zeros left)
            ∙ ap (λ t. content ++ t)
                (zeros-append piece left
                  ∙ ap (λ n. zeros n) {x = piece + left} {y = suc remaining} (omega arith)))
          (zero_loop-Wrote rounds left (record db { chunks = s.rows }) s.after
            (content ++ zeros piece) (omega arith) (Wrote-Ready r.exists s) (omega arith)))

  pub zero_fill-Wrote :
      (len : ℕ) (db : Db) (w : ChunkWriter) (content : Text)
      → Ready db g max w content
      → length content + len ≤ max
      → Wrote db g max (zero_fill len w db) (content ++ zeros len)
  unfolding zero_fill
  zero_fill-Wrote len db w content r below =
      zero_loop-Wrote len len db w content (omega arith) r below
