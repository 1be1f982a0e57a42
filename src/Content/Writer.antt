-- ===== src/Content/Writer.antt =====
-- `ChunkWriter` of crates/fslite-sqlite/src/content.rs. A method that takes `&mut self` gives back
-- the writer as it leaves it; after an error only its generation is used again.
use fslite.Common.{
  ℕ, zero, suc, ◌+◌, ◌-◌, ◌*◌, [], ◌∷◌, ◌++◌, Text, length, take, drop, replicate, min, ltb, ◌==◌,
  if◌then◌else◌,
}
use fslite.Fault.{ok, err, quota_exceeded, of_limit}
use fslite.Sql.{never}
use package.fslite.Content.Calls.{Async, ◌>>=◌, ◌>>◌, done, call}
use package.fslite.Content.Chunks.{
  chunk_size, chunk_index_of, chunk_local_offset, fetch_chunk_bytes, upsert_chunk, copy_chunk_range,
}

pub record ChunkWriter : Type 0 where
  pub generation_id : ℕ
  pub max_file_bytes : ℕ
  pub next_chunk_index : ℕ
  pub committed_len : ℕ
  pub buffer : Text

unfoldable pub new : ℕ → ℕ → ChunkWriter
new generation max = record {
  generation_id = generation;
  max_file_bytes = max;
  next_chunk_index = 0;
  committed_len = 0;
  buffer = [];
}

unfoldable pub total_len : ChunkWriter → ℕ
total_len w = w.committed_len + length w.buffer

unfoldable pub skip_committed_chunks : ℕ → ChunkWriter → ChunkWriter
skip_committed_chunks whole_chunk_count w = record w {
  next_chunk_index = w.next_chunk_index + whole_chunk_count;
  committed_len = w.committed_len + whole_chunk_count * chunk_size;
}

unfoldable pub flush_full_buffer : ChunkWriter → Async ChunkWriter
flush_full_buffer w = do
  call (upsert_chunk w.generation_id w.next_chunk_index w.buffer)
  done (
      ok (record w {
        buffer = [];
        committed_len = w.committed_len + chunk_size;
        next_chunk_index = w.next_chunk_index + 1;
      }))

-- `extend_from_slice`
unfoldable pub extended : ChunkWriter → Text → ChunkWriter
extended w piece = record w { buffer = w.buffer ++ piece }

-- the end of the body of the loop of `write_bytes`: the quota, and the flush
unfoldable pub settle : ChunkWriter → Async ChunkWriter
settle w =
    if ltb w.max_file_bytes (total_len w)
    then done (err (quota_exceeded (of_limit w.max_file_bytes)))
    else if length w.buffer == chunk_size
    then flush_full_buffer w
    else done (ok w)

-- The loop of `write_bytes`; `rounds` bounds it.
unfoldable pub write_loop : ℕ → Text → ChunkWriter → Async ChunkWriter
write_loop rounds [] w = done (ok w)
write_loop zero (b ∷ bytes) w = λ db. never
write_loop (suc rounds) (b ∷ bytes) w = do
  let piece = min (chunk_size - length w.buffer) (length (b ∷ bytes))
  after ← settle (extended w (take piece (b ∷ bytes)))
  write_loop rounds (drop piece (b ∷ bytes)) after

-- each round takes a byte at least
unfoldable pub write_bytes : Text → ChunkWriter → Async ChunkWriter
write_bytes bytes w = write_loop (length bytes) bytes w

unfoldable pub finish : ChunkWriter → Async (ℕ × ℕ)
finish w = if length w.buffer == 0 then done (ok (w.generation_id, w.committed_len)) else (do
  call (upsert_chunk w.generation_id w.next_chunk_index w.buffer)
  done (ok (w.generation_id, w.committed_len + length w.buffer)))

-- the two halves of `copy_prefix_from`
unfoldable pub copy_whole_chunks : ℕ → ℕ → ChunkWriter → Async ChunkWriter
copy_whole_chunks old_generation whole_chunks w =
    if ltb 0 whole_chunks
    then (do
      call (copy_chunk_range old_generation w.generation_id 0 whole_chunks)
      done (ok (skip_committed_chunks whole_chunks w)))
    else done (ok w)

unfoldable pub copy_remainder : ℕ → ℕ → ℕ → ChunkWriter → Async ChunkWriter
copy_remainder old_generation index remainder w =
    if ltb 0 remainder
    then (do
      bytes ← call (fetch_chunk_bytes old_generation index)
      write_bytes (take (min remainder (length bytes)) bytes) w)
    else done (ok w)

unfoldable pub copy_prefix_from : ℕ → ℕ → ChunkWriter → Async ChunkWriter
copy_prefix_from old_generation upto w = if upto == 0 then done (ok w) else (do
  copied ← copy_whole_chunks old_generation (chunk_index_of upto) w
  copy_remainder old_generation (chunk_index_of upto) (chunk_local_offset upto) copied)

-- what of a chunk lies between the two offsets; `read` slices its chunks in the same way
unfoldable pub chunk_slice : ℕ → ℕ → ℕ → Text → Text
chunk_slice from to index bytes =
    let kept =
      if index == chunk_index_of (to - 1)
      then take (min (chunk_local_offset (to - 1) + 1) (length bytes)) bytes
      else bytes in
    if index == chunk_index_of from
    then drop (min (chunk_local_offset from) (length kept)) kept
    else kept

-- `for index in start_chunk..=end_chunk`, for the chunks that are left
unfoldable pub copy_chunks_from : ℕ → ℕ → ℕ → ℕ → ℕ → ChunkWriter → Async ChunkWriter
copy_chunks_from zero index old_generation from to w = done (ok w)
copy_chunks_from (suc left) index old_generation from to w = do
  bytes ← call (fetch_chunk_bytes old_generation index)
  after ← write_bytes (chunk_slice from to index bytes) w
  copy_chunks_from left (suc index) old_generation from to after

unfoldable pub copy_suffix_from : ℕ → ℕ → ℕ → ChunkWriter → Async ChunkWriter
copy_suffix_from old_generation from to w =
    if ltb from to
    then copy_chunks_from (suc (chunk_index_of (to - 1)) - chunk_index_of from)
        (chunk_index_of from) old_generation from to w
    else done (ok w)

-- The loop of `zero_fill`; `rounds` bounds it.
unfoldable pub zero_loop : ℕ → ℕ → ChunkWriter → Async ChunkWriter
zero_loop rounds zero w = done (ok w)
zero_loop zero (suc remaining) w = λ db. never
zero_loop (suc rounds) (suc remaining) w = do
  let piece = min (suc remaining) chunk_size
  after ← write_bytes (replicate piece 0) w
  zero_loop rounds (suc remaining - piece) after

unfoldable pub zero_fill : ℕ → ChunkWriter → Async ChunkWriter
zero_fill len w = zero_loop len len w
