-- ===== src/Content/Finishing.antt =====
-- The end of a write of crates/fslite-sqlite/src/content.rs: the last chunk is stored, and the
-- generation holds what was written; or the quota is exceeded, and the generation goes.
use mathlib.Core.List.{map}
use fslite.Common.{
  ℕ, ◌+◌, ◌*◌, ◌≤◌, ◌<◌, ◌≡◌, refl, sym, ap, subst, ◌∙◌, true, List, [], ◌∷◌, ◌++◌, append_assoc,
  append-nil, Text, length, take, drop, concat, length-append, take_all, drop_all, ltb, ◌==◌, ==_eq,
  inl, inr, Bool-cases, arith,
}
use fslite.Fault.{ok}
use fslite.Schema.{ChunkRow, Db}
use fslite.Sql.{Returned, returned, has_generation}
use package.fslite.Content.Calls.{awaited, or_abort}
use package.fslite.Content.Chunks.{chunk_size, chunk_bytes, upserted}
use package.fslite.Content.Writer
use package.fslite.Content.Writer.{ChunkWriter, write_bytes}
use package.fslite.Content.Write.{stage, stage_source}
use package.fslite.Content.Stored.{Holds, Spares, chunk_bytes-upserted, chunk_bytes-upserted_other}
use package.fslite.Content.Filling.{
  Filling, Wrote, buffer_row, length-buffer, upsert_chunk-done, Spares-upserted,
}
use package.fslite.Content.Loop.{Ready, Wrote-then, Wrote-Ready, done-Wrote, write_bytes-Wrote}
use package.fslite.Content.Copying.{Unused, new-Ready}

-- A run that ends with a generation and its length leaves the content in the generation, and the
-- rest of the tables as it was.
pub record Finished (db : Db) (g : ℕ) (run : Returned (ℕ × ℕ)) (content : Text) : Type 0 where
  pub rows : List ChunkRow
  pub ends : run ≡ returned (ok (g, length content)) (record db { chunks = rows })
  pub holds : Holds rows g content
  pub spares : Spares g db.chunks rows

-- what is stored is all there is
all_cut :
    {rows : List ChunkRow} {w : ChunkWriter} {content : Text}
    → Filling rows w content
    → length w.buffer ≡ 0
    → Holds rows w.generation_id content
all_cut {rows} {w} {content} f h i = elim (Bool-cases (ltb i w.next_chunk_index)) [
  | inl e ↦ f.cut i (ground arith)
  | inr e ↦
      let size = length-buffer f in
      f.fresh i (ground arith)
      ∙ sym (ap (take chunk_size) (drop_all (i * chunk_size) content (ground arith)))
]

last_cut :
    {rows : List ChunkRow} {w : ChunkWriter} {content : Text}
    → Filling rows w content
    → length w.buffer < chunk_size
    → Holds (upserted (buffer_row w) rows) w.generation_id content
last_cut {rows} {w} {content} f h i = elim (Bool-cases (i == w.next_chunk_index)) [
  | inl e ↦
      subst
        (λ j.
          chunk_bytes (upserted (buffer_row w) rows) w.generation_id j
          ≡ take chunk_size (drop (j * chunk_size) content))
        (sym (==_eq i w.next_chunk_index e))
        (chunk_bytes-upserted rows (buffer_row w)
          ∙ sym (take_all chunk_size w.buffer (omega arith))
          ∙ ap (take chunk_size) f.buffered)
  | inr e ↦
      chunk_bytes-upserted_other rows (buffer_row w) w.generation_id i (ground arith)
      ∙ elim (Bool-cases (ltb i w.next_chunk_index)) [
        | inl k ↦ f.cut i (ground arith)
        | inr k ↦
            let size = length-buffer f in
            f.fresh i (ground arith)
            ∙ sym (ap (take chunk_size) (drop_all (i * chunk_size) content (ground arith)))
      ]
]

finish-own :
    (db : Db) (w : ChunkWriter) (content : Text)
    → has_generation db w.generation_id ≡ true
    → Filling db.chunks w content
    → length w.buffer < chunk_size
    → Finished db w.generation_id (Writer.finish w db) content
unfolding Writer.finish
finish-own db w content has f room =
    let size = length-buffer f in
    let committed = f.committed in
    elim (Bool-cases (length w.buffer == 0)) [
      | inl e ↦ record {
        rows = db.chunks;
        ends = rw e (ap (λ n. returned (ok (w.generation_id, n)) db) (ground arith));
        holds = all_cut f (ground arith);
        spares = λ k n i. refl;
      }
      | inr e ↦ record {
        rows = upserted (buffer_row w) db.chunks;
        ends =
            rw (e, upsert_chunk-done db w has)
              (ap
                (λ n.
                  returned (ok (w.generation_id, n))
                    (record db { chunks = upserted (buffer_row w) db.chunks }))
                (omega arith));
        holds = last_cut f room;
        spares = Spares-upserted db.chunks w;
      }
    ]

pub finish-Finished :
    (db : Db) (g max : ℕ) (w : ChunkWriter) (content : Text)
    → Ready db g max w content
    → Finished db g (Writer.finish w db) content
finish-Finished db g max w content r =
    subst (λ k. Finished db k (Writer.finish w db) content) r.generation
      (finish-own db w content (ap (has_generation db) r.generation ∙ r.exists) r.filling r.room)

-- finish behind a run that wrote
pub Wrote-finish :
    {db : Db} {g max : ℕ} {run : Returned ChunkWriter} {content : Text}
    → has_generation db g ≡ true
    → Wrote db g max run content
    → Finished db g (awaited run Writer.finish) content
Wrote-finish {db} {g} {max} {run} {content} has w =
    let f =
      finish-Finished (record db { chunks = w.rows }) g max w.after content (Wrote-Ready has w) in
    record {
      rows = f.rows;
      ends = ap (λ r. awaited r Writer.finish) w.ends ∙ f.ends;
      holds = f.holds;
      spares = λ k n i. f.spares k n i ∙ w.spares k n i;
    }

-- a run that wrote is not aborted
pub or_abort-Wrote :
    {db : Db} {g max : ℕ} {content : Text} (generation : ℕ) (m : Db → Returned ChunkWriter)
    → Wrote db g max (m db) content
    → Wrote db g max (or_abort generation m db) content
unfolding or_abort
or_abort-Wrote generation m w = record {
  after = w.after;
  rows = w.rows;
  ends = rw (or_abort, w.ends) refl;
  filling = w.filling;
  room = w.room;
  same_generation = w.same_generation;
  same_max = w.same_max;
  spares = w.spares;
}

module _ (g max : ℕ) where
  -- A source without an error, up to the quota.
  pub stage-Wrote :
      (pieces : List Text) (db : Db) (w : ChunkWriter) (content : Text)
      → Ready db g max w content
      → length content + length (concat pieces) ≤ max
      → Wrote db g max (stage (map ok pieces) w db) (content ++ concat pieces)
  unfolding stage
  stage-Wrote [] db w content r below =
      subst (Wrote db g max (returned (ok w) db)) (sym (append-nil content))
        (done-Wrote db g max w content r)
  stage-Wrote (piece ∷ pieces) db w content r below =
      let sizes = length-append piece (concat pieces) in
      let longer = length-append content piece in
      let s =
        or_abort-Wrote w.generation_id (write_bytes piece w)
          (write_bytes-Wrote g max piece db w content r (omega arith)) in
      Wrote-then (stage (map ok pieces)) s (
        subst
          (Wrote (record db { chunks = s.rows }) g max
            (stage (map ok pieces) s.after (record db { chunks = s.rows })))
          (append_assoc content piece (concat pieces))
          (stage-Wrote pieces (record db { chunks = s.rows }) s.after (content ++ piece)
            (Wrote-Ready r.exists s) (omega arith)))

-- Streaming a source into a new generation, up to the quota, ends, with all of the bytes in the
-- generation, cut into chunks, and their number; the other generations keep their chunks.
pub stage_source-Finished :
    (db : Db) (g max : ℕ) (pieces : List Text)
    → has_generation db g ≡ true
    → Unused db g
    → length (concat pieces) ≤ max
    → Finished db g (stage_source g max (map ok pieces) db) (concat pieces)
unfolding stage_source
stage_source-Finished db g max pieces has un below =
    Wrote-finish has
      (stage-Wrote g max pieces db (Writer.new g max) [] (new-Ready db g max has un) (omega arith))
