-- ===== src/Content/Copying.antt =====
-- `copy_prefix_from`, `copy_suffix_from` and `zero_fill` of crates/fslite-sqlite/src/content.rs.
use fslite.Common.{
  ℕ, ◌+◌, ◌-◌, ◌*◌, ◌≤◌, ◌≡◌, refl, sym, ap, subst, ◌∙◌, true, false, [], ◌++◌, append-nil, Text,
  length, take, drop, min, length-drop, length-take, take-take, drop-take, drop_all, take-min, ltb,
  ◌==◌, inl, inr, Bool-cases, arith,
}
use fslite.Fault.{ok}
use fslite.Schema.{Db}
use fslite.Sql.{Returned, returned, any_by, has_generation, transact}
use package.fslite.Content.Chunks.{chunk_size, chunk_bytes, chunk_range, copy_chunk_range}
use package.fslite.Content.Writer
use package.fslite.Content.Writer.{
  ChunkWriter, skip_committed_chunks, write_bytes, copy_whole_chunks, copy_remainder,
  copy_prefix_from, chunk_slice, copy_chunks_from, copy_suffix_from, zero_loop, zero_fill,
}
use package.fslite.Content.Stored.{
  Holds, chunk_bytes-append_left, chunk_bytes-append_right, chunk_bytes-chunk_range,
  chunk_bytes-none, any_by-chunk_range, any_by-other_index, no_conflict,
}
use package.fslite.Content.Filling.{Filling, Wrote}
use package.fslite.Content.Reading.{fetch-done}
use package.fslite.Content.Loop.{Ready, done-Wrote, write_bytes-Wrote}

-- no chunk is the generation's
abbrev pub Unused : Db → ℕ → Type 0
Unused db g = any_by (λ c. c.generation_id == g) db.chunks ≡ false

-- the content of another generation stays what it is
pub Holds-after :
    {db : Db} {g max : ℕ} {run : Returned ChunkWriter} {content : Text}
    (w : Wrote db g max run content) (old : ℕ) (c : Text)
    → (old == g) ≡ false
    → Holds db.chunks old c
    → Holds w.rows old c
Holds-after w old c n h = λ i. w.spares old n i ∙ h i

copy_chunk_range-done :
    (db : Db) (old g n : ℕ)
    → has_generation db g ≡ true
    → Unused db g
    → transact (copy_chunk_range old g 0 n) db
      ≡ returned (ok tt) (record db { chunks = db.chunks ++ chunk_range old g 0 n db.chunks })
unfolding transact copy_chunk_range
copy_chunk_range-done db old g n has h =
    rw
      (transact, copy_chunk_range, has, no_conflict db.chunks (chunk_range old g 0 n db.chunks) g h)
      refl

-- a writer that has taken nothing
pub new-Ready :
    (db : Db) (g max : ℕ)
    → has_generation db g ≡ true
    → Unused db g
    → Ready db g max (Writer.new g max) []
unfolding Writer.new
new-Ready db g max has un = record {
  generation = refl;
  limit = refl;
  exists = has;
  filling = record {
    cut = λ i k. absurd (omega arith);
    fresh = λ i k. chunk_bytes-none db.chunks g i (any_by-other_index db.chunks g i un);
    committed = refl;
    buffered = refl;
    whole = omega arith;
    short = omega arith;
  };
  room = omega arith;
}

module _ (db : Db) (g max old : ℕ) (c : Text) where
  copied-Filling :
      (n : ℕ)
      → Unused db g
      → Holds db.chunks old c
      → n * chunk_size ≤ length c
      → Filling
          (db.chunks ++ chunk_range old g 0 n db.chunks)
          (skip_committed_chunks n (Writer.new g max))
          (take (n * chunk_size) c)
  unfolding skip_committed_chunks Writer.new
  copied-Filling n un h bound =
      let size = length-take (n * chunk_size) c bound in
      record {
        cut = λ i k.
            chunk_bytes-append_right db.chunks (chunk_range old g 0 n db.chunks) g i un
            ∙ chunk_bytes-chunk_range db.chunks old g n i (ground arith)
            ∙ h i
            ∙ sym (
                take-take chunk_size (n * chunk_size - i * chunk_size) (drop (i * chunk_size) c)
                  (omega arith))
            ∙ ap (take chunk_size) (sym (drop-take (i * chunk_size) (n * chunk_size) c));
        fresh = λ i k.
            chunk_bytes-append_right db.chunks (chunk_range old g 0 n db.chunks) g i un
            ∙ chunk_bytes-none (chunk_range old g 0 n db.chunks) g i
                (any_by-chunk_range db.chunks old g n g i (ground arith));
        committed = omega arith;
        buffered = sym (drop_all ((0 + n) * chunk_size) (take (n * chunk_size) c) (omega arith));
        whole = omega arith;
        short = omega arith;
      }

  -- the whole chunks of the prefix
  pub copy_whole_chunks-Wrote :
      (n : ℕ)
      → has_generation db g ≡ true
      → Unused db g
      → Holds db.chunks old c
      → n * chunk_size ≤ length c
      → Wrote db g max (copy_whole_chunks old n (Writer.new g max) db) (take (n * chunk_size) c)
  unfolding copy_whole_chunks skip_committed_chunks Writer.new
  copy_whole_chunks-Wrote n has un h bound = elim (Bool-cases (ltb 0 n)) [
    | inl e ↦ record {
      after = skip_committed_chunks n (Writer.new g max);
      rows = db.chunks ++ chunk_range old g 0 n db.chunks;
      ends = rw (e, copy_chunk_range-done db old g n has un) refl;
      filling = copied-Filling n un h bound;
      room = omega arith;
      same_generation = refl;
      same_max = refl;
      spares = λ k differs i.
          chunk_bytes-append_left db.chunks (chunk_range old g 0 n db.chunks) k i
            (any_by-chunk_range db.chunks old g n k i (rw differs refl));
    }
    | inr e ↦ rw e (
        subst (Wrote db g max (returned (ok (Writer.new g max)) db)) (none n (ground arith))
          (done-Wrote db g max (Writer.new g max) [] (new-Ready db g max has un)))
  ]
    where
      none : (n : ℕ) → n ≡ 0 → [] ≡ take (n * chunk_size) c
      none n z = sym (ap (λ m. take m c) {x = n * chunk_size} {y = 0} (omega arith))

  -- the part of a chunk behind them
  pub copy_remainder-Wrote :
      (w : ChunkWriter) (content : Text) (n k : ℕ)
      → Ready db g max w content
      → Holds db.chunks old c
      → k ≤ chunk_size
      → n * chunk_size + k ≤ length c
      → length content + k ≤ max
      → Wrote db g max (copy_remainder old n k w db) (content ++ take k (drop (n * chunk_size) c))
  unfolding copy_remainder
  copy_remainder-Wrote w content n k r h small bound below = elim (Bool-cases (ltb 0 k)) [
    | inl e ↦
        rw (e, fetch-done db old n)
          (let kept = part (chunk_bytes db.chunks old n) (h n) in
            let behind = length-drop (n * chunk_size) c in
            let size = length-take k (drop (n * chunk_size) c) (omega arith) in
            subst
              (λ t.
                Wrote db g max (write_bytes t w db) (content ++ take k (drop (n * chunk_size) c)))
              (sym kept)
              (write_bytes-Wrote g max (take k (drop (n * chunk_size) c)) db w content r
                (omega arith)))
    | inr e ↦ rw e (
        subst (Wrote db g max (returned (ok w) db))
          (sym (append-nil content)
            ∙ ap (λ m. content ++ take m (drop (n * chunk_size) c)) {x = 0} {y = k} (ground arith))
          (done-Wrote db g max w content r))
  ]
    where
      part :
          (bytes : Text)
          → bytes ≡ take chunk_size (drop (n * chunk_size) c)
          → take (min k (length bytes)) bytes ≡ take k (drop (n * chunk_size) c)
      part bytes e =
          take-min k bytes ∙ ap (take k) e ∙ take-take k chunk_size (drop (n * chunk_size) c) small
