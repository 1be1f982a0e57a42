-- ===== src/Content/Aborting.antt =====
-- A source that exceeds the quota, in crates/fslite-sqlite/src/content.rs: the error is given, and
-- the generation goes with its chunks.
use mathlib.Core.List.{map}
use fslite.Common.{
  ℕ, ◌+◌, ◌≤◌, ◌<◌, ◌≡◌, refl, sym, ap, subst, ◌∙◌, true, false, not, List, [], ◌∷◌, ◌++◌, Text,
  length, concat, length-append, ltb, ◌==◌, inl, inr, Bool-cases, arith,
}
use fslite.Fault.{ok, err, quota_exceeded, of_limit}
use fslite.Schema.{ChunkRow, Db}
use fslite.Sql.{Returned, returned, any_by, keep_by, has_generation, transact}
use fslite.Purge.{delete_generation, is_referenced}
use package.fslite.Content.Calls.{Async, awaited, abort, or_abort}
use package.fslite.Content.Writer
use package.fslite.Content.Writer.{ChunkWriter, write_bytes}
use package.fslite.Content.Write.{stage, stage_source}
use package.fslite.Content.Stored.{Spares, chunk_bytes-keep_by}
use package.fslite.Content.Filling.{Wrote, Refused}
use package.fslite.Content.Loop.{Ready, Wrote-Ready, write_bytes-Wrote, write_bytes-Refused}
use package.fslite.Content.Copying.{Unused, new-Ready}
use package.fslite.Content.Finishing.{or_abort-Wrote}

-- The run ends with the quota's error, and nothing is left of the generation.
pub record Aborted {ℓ} {A : Type ℓ} (db : Db) (g max : ℕ) (run : Returned A) : Type ℓ where
  pub rows : List ChunkRow
  pub ends :
      run
      ≡ returned
          (err (quota_exceeded (of_limit max)))
          (record db { generations = keep_by (λ x. not (x.id == g)) db.generations; chunks = rows })
  pub gone : any_by (λ c. c.generation_id == g) rows ≡ false
  pub spares : Spares g db.chunks rows

any_by-keep_by :
    (rows : List ChunkRow) (g : ℕ)
    → any_by (λ c. c.generation_id == g) (keep_by (λ c. not (c.generation_id == g)) rows) ≡ false
unfolding any_by keep_by
any_by-keep_by [] g = refl
any_by-keep_by (c ∷ rows) g = elim (Bool-cases (c.generation_id == g)) [
  | inl e ↦ rw e (any_by-keep_by rows g)
  | inr e ↦ rw (e, e) (any_by-keep_by rows g)
]

-- the call that deletes the generation
abort-done :
    (db : Db) (g : ℕ)
    → is_referenced db g ≡ false
    → abort g db
      ≡ returned (ok tt) (record db {
        generations = keep_by (λ x. not (x.id == g)) db.generations;
        chunks = keep_by (λ c. not (c.generation_id == g)) db.chunks;
      })
unfolding abort transact delete_generation
abort-done db g free = rw (abort, transact, delete_generation, free) refl

or_abort-Aborted :
    (db : Db) (g max : ℕ) (m : Db → Returned ChunkWriter)
    → is_referenced db g ≡ false
    → Refused db g max (m db)
    → Aborted db g max (or_abort g m db)
unfolding or_abort is_referenced
or_abort-Aborted db g max m free r = record {
  rows = keep_by (λ c. not (c.generation_id == g)) r.rows;
  ends = rw (or_abort, r.ends, abort-done (record db { chunks = r.rows }) g free) refl;
  gone = any_by-keep_by r.rows g;
  spares = λ k n i. chunk_bytes-keep_by r.rows g k i n ∙ r.spares k n i;
}

Aborted-then {ℓ κ} :
    {A : Type ℓ} {B : Type κ} {db : Db} {g max : ℕ} {run : Returned A} (next : A → Async B)
    → Aborted db g max run
    → Aborted db g max (awaited run next)
Aborted-then next a = record {
  rows = a.rows;
  ends = ap (λ r. awaited r next) a.ends;
  gone = a.gone;
  spares = a.spares;
}

Wrote-Aborted :
    {db : Db} {g max : ℕ} {run : Returned ChunkWriter} {content : Text}
    (next : ChunkWriter → Async ChunkWriter) (w : Wrote db g max run content)
    → Aborted (record db { chunks = w.rows }) g max (next w.after (record db { chunks = w.rows }))
    → Aborted db g max (awaited run next)
Wrote-Aborted next w a = record {
  rows = a.rows;
  ends = ap (λ r. awaited r next) w.ends ∙ a.ends;
  gone = a.gone;
  spares = λ k n i. a.spares k n i ∙ w.spares k n i;
}

module _ (g max : ℕ) where
  pub stage-Aborted :
      (pieces : List Text) (db : Db) (w : ChunkWriter) (content : Text)
      → Ready db g max w content
      → is_referenced db g ≡ false
      → length content ≤ max
      → max < length content + length (concat pieces)
      → Aborted db g max (stage (map ok pieces) w db)
  unfolding stage is_referenced
  stage-Aborted [] db w content r free below over = absurd (omega arith)
  stage-Aborted (piece ∷ pieces) db w content r free below over =
      let sizes = length-append piece (concat pieces) in
      let longer = length-append content piece in
      elim (Bool-cases (ltb max (length content + length piece))) [
        | inl e ↦ Aborted-then (stage (map ok pieces)) (
            subst (λ k. Aborted db g max (or_abort k (write_bytes piece w) db)) (sym r.generation)
              (or_abort-Aborted db g max (write_bytes piece w) free
                (write_bytes-Refused g max piece db w content r below (ground arith))))
        | inr e ↦
            let s =
              or_abort-Wrote w.generation_id (write_bytes piece w)
                (write_bytes-Wrote g max piece db w content r (ground arith)) in
            Wrote-Aborted (stage (map ok pieces)) s (
              stage-Aborted pieces (record db { chunks = s.rows }) s.after (content ++ piece)
                (Wrote-Ready r.exists s) free (ground arith) (omega arith))
      ]

-- Streaming a source that is longer than the quota into a new generation ends with the error that
-- names the quota; the generation and its chunks are gone, and the rest is as it was.
pub stage_source-Aborted :
    (db : Db) (g max : ℕ) (pieces : List Text)
    → has_generation db g ≡ true
    → is_referenced db g ≡ false
    → Unused db g
    → max < length (concat pieces)
    → Aborted db g max (stage_source g max (map ok pieces) db)
unfolding stage_source
stage_source-Aborted db g max pieces has free un over = Aborted-then Writer.finish (
    stage-Aborted g max pieces db (Writer.new g max) [] (new-Ready db g max has un) free
      (omega arith) (omega arith))
