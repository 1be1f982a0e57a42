-- ===== src/Content/Reading.antt =====
-- What `read` of crates/fslite-sqlite/src/content.rs yields.
use fslite.Common.{
  ℕ, zero, suc, ◌+◌, ◌-◌, ◌*◌, ◌≤◌, ◌<◌, ◌≡◌, refl, sym, ap, ◌∙◌, true, false, Option, some, List,
  [], ◌∷◌, ◌++◌, Text, length, take, drop, min, segment, concat, ltb, leb, ◌==◌, inl, inr,
  Bool-cases, arith,
}
use fslite.Path.{VirtualPath}
use fslite.Fault.{ok}
use fslite.Schema.{RawNode, Db, file_kind}
use fslite.Sql.{Returned, returned, transact}
use fslite.Resolve.{resolve}
use package.fslite.Content.Chunks.{chunk_size, chunk_index_of, fetch_chunk_bytes, chunk_bytes}
use package.fslite.Content.Writer.{chunk_slice}
use package.fslite.Content.Read.{
  ByteRange, FileRead, unfold_chunks, chunk_range_stream, stream_of, requested, read_file, read,
}
use package.fslite.Content.Stored.{Holds}
use package.fslite.Content.Slicing.{low, chunk_slice-behind, segment-none, low_end, low_start}

-- The row is a file's, with that content.
pub record Shows (db : Db) (node : RawNode) (content : Text) : Type 0 where
  pub generation : ℕ
  pub is_file : (node.kind == file_kind) ≡ true
  pub has_revision : (node.revision == 0) ≡ false
  pub has_generation : node.content_generation_id ≡ some generation
  pub has_size : node.size ≡ length content
  pub holds : Holds db.chunks generation content

abbrev Streamed : Db → Returned (List Text) → Text → Type 0
Streamed db run bytes =
    (chunks : List Text) × (run ≡ returned (ok chunks) db) × (concat chunks ≡ bytes)

-- a statement that only reads
pub fetch-done :
    (db : Db) (g i : ℕ)
    → transact (fetch_chunk_bytes g i) db ≡ returned (ok (chunk_bytes db.chunks g i)) db
unfolding transact fetch_chunk_bytes
fetch-done db g i = refl

module _ (db : Db) (g start end : ℕ) (content : Text) where
  unfold_chunks-segment :
      (left index : ℕ)
      → Holds db.chunks g content
      → start < end
      → chunk_index_of start ≤ index
      → left + index ≡ suc (chunk_index_of (end - 1))
      → Streamed db
          (unfold_chunks left index g start end db)
          (segment content (low start index) end)
  unfolding unfold_chunks
  unfold_chunks-segment zero index h less first e = (
    [],
    refl,
    sym (
        ap (λ i. segment content (low start i) end) {x = index} {y = suc (chunk_index_of (end - 1))}
          (omega arith)
        ∙ segment-none content (low start (suc (chunk_index_of (end - 1)))) end
            (low_end start end less)),
  )
  unfold_chunks-segment (suc left) index h less first e =
      let (rest, ends, same) =
        unfold_chunks-segment left (suc index) h less (omega arith) (omega arith) in
      (
        chunk_slice start end index (chunk_bytes db.chunks g index) ∷ rest,
        rw (fetch-done db g index, ends) refl,
        ap (λ t. chunk_slice start end index t ++ concat rest) (h index)
            ∙ ap
                (λ t.
                  chunk_slice start end index (take chunk_size (drop (index * chunk_size) content))
                  ++ t)
                same
            ∙ chunk_slice-behind content start end index less first (omega arith),
      )

  chunk_range_stream-segment :
      Holds db.chunks g content
      → start < end
      → Streamed db (chunk_range_stream g start end db) (segment content start end)
  unfolding chunk_range_stream
  chunk_range_stream-segment h less =
      let (chunks, ends, same) =
        unfold_chunks-segment (suc (chunk_index_of (end - 1)) - chunk_index_of start)
          (chunk_index_of start) h less (omega arith) (omega arith) in
      (chunks, ends, same ∙ ap (λ n. segment content n end) (low_start start))

stream_of-segment :
    (db : Db) (node : RawNode) (content : Text) (start end : ℕ)
    → Shows db node content
    → Streamed db (stream_of node start end db) (segment content start end)
unfolding stream_of
stream_of-segment db node content start end s = elim (Bool-cases (leb end start)) [
  | inl e ↦ rw e ([], refl, sym (segment-none content start end (ground arith)))
  | inr e ↦
      rw (e, s.has_generation)
        (chunk_range_stream-segment db s.generation start end content s.holds (ground arith))
]

module _ (db : Db) (path : VirtualPath) (node : RawNode) (content : Text)
    (range : Option ByteRange) where
  -- what is yielded for the requested range, cut to the file
  abbrev pub Yields : Returned FileRead → Type 0
  Yields run =
      (chunks : List Text) × (run
        ≡ returned
            (ok (record {
              logical_length = node.size;
              revision = node.revision;
              range = record {
                start = (requested range node.size).start;
                end = min (requested range node.size).end node.size;
              };
              stream = chunks;
            }))
            db)
      × (concat chunks
          ≡ segment content (requested range node.size).start
              (min (requested range node.size).end node.size))

  read_file-Yields :
      Shows db node content
      → (requested range node.size).start ≤ node.size
      → Yields (read_file path node range db)
  unfolding read_file
  read_file-Yields s h =
      let (chunks, ends, same) =
        stream_of-segment db node content (requested range node.size).start
          (min (requested range node.size).end node.size) s in
      (chunks, rw (s.has_revision, starts, ends) refl, same)
    where
      starts : ltb node.size (requested range node.size).start ≡ false
      starts = ground arith

  -- Reading a file whose content is stored yields chunks that make up exactly the requested range of
  -- the content, cut at the end of the file, and changes nothing.
  pub read-Yields :
      (ws : ℕ)
      → resolve db ws path ≡ some node
      → Shows db node content
      → (requested range node.size).start ≤ node.size
      → Yields (read ws path range db)
  unfolding read transact
  read-Yields ws e s h = rw (e, s.is_file) (read_file-Yields s h)
