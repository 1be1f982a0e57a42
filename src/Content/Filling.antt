-- ===== src/Content/Filling.antt =====
-- What `ChunkWriter::write_bytes` of crates/fslite-sqlite/src/content.rs has written.
use fslite.Common.{
  ℕ, ◌+◌, ◌*◌, ◌≤◌, ◌<◌, ◌≡◌, refl, sym, ap, subst, ◌∙◌, true, false, List, [], ◌++◌, Text, length,
  take, drop, length-append, length-drop, take_all, drop_all, take-append, drop-append, ltb, ◌==◌,
  ==_eq, inl, inr, Bool-cases, arith,
}
use fslite.Fault.{ok, err, quota_exceeded, of_limit}
use fslite.Schema.{ChunkRow, Db}
use fslite.Sql.{Returned, returned, has_generation, transact}
use package.fslite.Content.Chunks.{chunk_size, chunk_bytes, upserted, upsert_chunk}
use package.fslite.Content.Writer.{ChunkWriter, total_len, flush_full_buffer, extended, settle}
use package.fslite.Content.Stored.{Spares, chunk_bytes-upserted, chunk_bytes-upserted_other}

-- The writer has taken the content: whole chunks of it are stored, the rest is in the buffer.
pub record Filling (rows : List ChunkRow) (w : ChunkWriter) (content : Text) : Type 0 where
  pub cut :
      (i : ℕ)
      → i < w.next_chunk_index
      → chunk_bytes rows w.generation_id i ≡ take chunk_size (drop (i * chunk_size) content)
  pub fresh : (i : ℕ) → w.next_chunk_index ≤ i → chunk_bytes rows w.generation_id i ≡ []
  pub committed : w.committed_len ≡ w.next_chunk_index * chunk_size
  pub buffered : w.buffer ≡ drop (w.next_chunk_index * chunk_size) content
  pub whole : w.next_chunk_index * chunk_size ≤ length content
  pub short : length content ≤ w.next_chunk_index * chunk_size + chunk_size

-- A run of the writer's ends with a writer that has taken the content, and has room.
pub record Wrote (db : Db) (g max : ℕ) (run : Returned ChunkWriter) (content : Text) : Type 0 where
  pub after : ChunkWriter
  pub rows : List ChunkRow
  pub ends : run ≡ returned (ok after) (record db { chunks = rows })
  pub filling : Filling rows after content
  pub room : length after.buffer < chunk_size
  pub same_generation : after.generation_id ≡ g
  pub same_max : after.max_file_bytes ≡ max
  pub spares : Spares g db.chunks rows

-- A run of the writer's ends with the quota, and only chunks of its generation are new.
pub record Refused (db : Db) (g max : ℕ) (run : Returned ChunkWriter) : Type 0 where
  pub rows : List ChunkRow
  pub ends : run ≡ returned (err (quota_exceeded (of_limit max))) (record db { chunks = rows })
  pub spares : Spares g db.chunks rows

-- the row that `upsert_chunk` writes for the buffer
abbrev pub buffer_row : ChunkWriter → ChunkRow
buffer_row w = record {
  generation_id = w.generation_id;
  chunk_index = w.next_chunk_index;
  bytes = w.buffer;
}

pub ltb_no : {a b : ℕ} → a ≤ b → ltb b a ≡ false
ltb_no h = ground arith

pub ltb_yes : {a b : ℕ} → a < b → ltb a b ≡ true
ltb_yes h = ground arith

module _ {rows : List ChunkRow} {w : ChunkWriter} {content : Text} where
  pub length-buffer :
      Filling rows w content → w.next_chunk_index * chunk_size + length w.buffer ≡ length content
  length-buffer f =
      let whole = f.whole in
      let behind = length-drop (w.next_chunk_index * chunk_size) content in
      rw f.buffered (omega arith)

  pub total_len-Filling : Filling rows w content → total_len w ≡ length content
  unfolding total_len
  total_len-Filling f = rw f.committed (length-buffer f)

  pub extended-Filling :
      (piece : Text)
      → Filling rows w content
      → length w.buffer + length piece ≤ chunk_size
      → Filling rows (extended w piece) (content ++ piece)
  unfolding extended
  extended-Filling piece f h =
      let size = length-buffer f in
      let longer = length-append content piece in
      record {
        cut = λ i k.
            let whole = f.whole in
            let behind = length-drop (i * chunk_size) content in
            f.cut i k
            ∙ sym (take-append chunk_size (drop (i * chunk_size) content) piece (omega arith))
            ∙ ap (take chunk_size) (sym (drop-append (i * chunk_size) content piece (omega arith)));
        fresh = f.fresh;
        committed = f.committed;
        buffered =
            ap (λ t. t ++ piece) f.buffered
            ∙ sym (drop-append (w.next_chunk_index * chunk_size) content piece f.whole);
        whole = let whole = f.whole in omega arith;
        short = omega arith;
      }

  -- a full buffer, stored as the next chunk
  flushed-Filling :
      Filling rows w content
      → length w.buffer ≡ chunk_size
      → Filling
          (upserted (buffer_row w) rows)
          (record w {
            buffer = [];
            committed_len = w.committed_len + chunk_size;
            next_chunk_index = w.next_chunk_index + 1;
          })
          content
  flushed-Filling f h =
      let size = length-buffer f in
      let new = buffer_row w in
      record {
        cut = λ i k. elim (Bool-cases (i == w.next_chunk_index)) [
          | inl e ↦
              subst
                (λ j.
                  chunk_bytes (upserted new rows) w.generation_id j
                  ≡ take chunk_size (drop (j * chunk_size) content))
                (sym (==_eq i w.next_chunk_index e))
                (chunk_bytes-upserted rows new
                  ∙ sym (take_all chunk_size w.buffer (omega arith))
                  ∙ ap (take chunk_size) f.buffered)
          | inr e ↦
              chunk_bytes-upserted_other rows new w.generation_id i (ground arith)
              ∙ f.cut i (ground arith)
        ];
        fresh = λ i k.
            chunk_bytes-upserted_other rows new w.generation_id i (ground arith)
            ∙ f.fresh i (omega arith);
        committed = let committed = f.committed in omega arith;
        buffered = sym (drop_all ((w.next_chunk_index + 1) * chunk_size) content (omega arith));
        whole = omega arith;
        short = omega arith;
      }

-- The statement on the chunk of the buffer, and what it leaves alone.
pub upsert_chunk-done :
    (db : Db) (w : ChunkWriter)
    → has_generation db w.generation_id ≡ true
    → transact (upsert_chunk w.generation_id w.next_chunk_index w.buffer) db
      ≡ returned (ok tt) (record db { chunks = upserted (buffer_row w) db.chunks })
unfolding transact upsert_chunk
upsert_chunk-done db w has = rw (transact, upsert_chunk, has) refl

pub Spares-upserted :
    (rows : List ChunkRow) (w : ChunkWriter)
    → Spares w.generation_id rows (upserted (buffer_row w) rows)
Spares-upserted rows w g n i = chunk_bytes-upserted_other rows (buffer_row w) g i (ground arith)

-- The end of a round, for a buffer that may be full, below the quota.
pub settle-Wrote :
    (db : Db) (w : ChunkWriter) (content : Text)
    → has_generation db w.generation_id ≡ true
    → Filling db.chunks w content
    → length content ≤ w.max_file_bytes
    → Wrote db w.generation_id w.max_file_bytes (settle w db) content
unfolding settle flush_full_buffer
settle-Wrote db w content has f h =
    let size = length-buffer f in
    let short = f.short in
    let total = total_len-Filling f in
    elim (Bool-cases (length w.buffer == chunk_size)) [
      | inl e ↦ record {
        after = record w {
          buffer = [];
          committed_len = w.committed_len + chunk_size;
          next_chunk_index = w.next_chunk_index + 1;
        };
        rows = upserted (buffer_row w) db.chunks;
        ends = rw (total, ltb_no h, e, flush_full_buffer, upsert_chunk-done db w has) refl;
        filling = flushed-Filling f (==_eq (length w.buffer) chunk_size e);
        room = omega arith;
        same_generation = refl;
        same_max = refl;
        spares = Spares-upserted db.chunks w;
      }
      | inr e ↦ record {
        after = w;
        rows = db.chunks;
        ends = rw (total, ltb_no h, e) refl;
        filling = f;
        room = ground arith;
        same_generation = refl;
        same_max = refl;
        spares = λ g n i. refl;
      }
    ]

pub settle-Refused :
    (db : Db) (w : ChunkWriter) (content : Text)
    → Filling db.chunks w content
    → w.max_file_bytes < length content
    → Refused db w.generation_id w.max_file_bytes (settle w db)
unfolding settle
settle-Refused db w content f h = record {
  rows = db.chunks;
  ends = let total = total_len-Filling f in rw (total, ltb_yes h) refl;
  spares = λ g n i. refl;
}
