-- ===== src/Content/Read.antt =====
-- `read` and `chunk_range_stream` of crates/fslite-sqlite/src/content.rs. The stream is drained
-- with no other call between its chunks.
use fslite.Common.{
  ℕ, zero, suc, ◌-◌, Option, none, some, List, [], ◌∷◌, Text, min, ltb, leb, ◌==◌, if◌then◌else◌,
}
use fslite.Path.{VirtualPath}
use fslite.Fault.{
  ok, err, not_found, wrong_node_type, invalid_range, internal_storage_failure, of_path, of_storage,
}
use fslite.Schema.{RawNode, file_kind}
use fslite.Sql.{gets, panic}
use fslite.Resolve.{resolve}
use package.fslite.Content.Calls.{Async, ◌>>=◌, done, call}
use package.fslite.Content.Chunks.{chunk_index_of, fetch_chunk_bytes}
use package.fslite.Content.Writer.{chunk_slice}

-- `ByteRange` of crates/fslite-core/src/fs.rs
pub record ByteRange : Type 0 where
  pub start : ℕ
  pub end : ℕ

-- `FileRead` of crates/fslite-core/src/fs.rs, with what its stream yields
pub record FileRead : Type 0 where
  pub logical_length : ℕ
  pub revision : ℕ
  pub range : ByteRange
  pub stream : List Text

-- the chunks from one on that are left of the range
unfoldable pub unfold_chunks : ℕ → ℕ → ℕ → ℕ → ℕ → Async (List Text)
unfold_chunks zero index generation start end = done (ok [])
unfold_chunks (suc left) index generation start end = do
  bytes ← call (fetch_chunk_bytes generation index)
  rest ← unfold_chunks left (suc index) generation start end
  done (ok (chunk_slice start end index bytes ∷ rest))

unfoldable pub chunk_range_stream : ℕ → ℕ → ℕ → Async (List Text)
chunk_range_stream generation start end =
    unfold_chunks (suc (chunk_index_of (end - 1)) - chunk_index_of start) (chunk_index_of start)
      generation start end

-- none in place of the generation is the `expect`
unfoldable pub stream_of : RawNode → ℕ → ℕ → Async (List Text)
stream_of node start end =
    if leb end start then done (ok []) else (elim node.content_generation_id [
      | none ↦ λ db. panic
      | some generation ↦ chunk_range_stream generation start end
    ])

abbrev pub requested : Option ByteRange → ℕ → ByteRange
requested none size = record { start = 0; end = size }
requested (some range) size = range

-- `read` behind the look-up of the node
unfoldable pub read_file : VirtualPath → RawNode → Option ByteRange → Async FileRead
read_file path node range =
    if node.revision == 0
    then done (err (internal_storage_failure of_storage))
    else if ltb node.size (requested range node.size).start
    then done (err (invalid_range (of_path path)))
    else (do
      let start = (requested range node.size).start
      let end = min (requested range node.size).end node.size
      chunks ← stream_of node start end
      done (
          ok (record {
            logical_length = node.size;
            revision = node.revision;
            range = record { start = start; end = end };
            stream = chunks;
          })))

unfoldable pub read : ℕ → VirtualPath → Option ByteRange → Async FileRead
read ws path range = do
  raw ← call (gets (λ db. resolve db ws path))
  elim raw [
    | none ↦ done (err (not_found (of_path path)))
    | some node ↦
        if node.kind == file_kind
        then read_file path node range
        else done (err (wrong_node_type (of_path path)))
  ]
