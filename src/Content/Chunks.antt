-- ===== src/Content/Chunks.antt =====
-- The statements on `content_chunks` of crates/fslite-sqlite/src/content.rs. Offsets are numbers
-- with no upper bound.
use Prim.Native.Nat.{◌/◌, ◌%◌}
use fslite.Common.{
  ℕ, Bool, not, ◌&&◌, none, some, List, [], ◌∷◌, ◌++◌, Text, ltb, leb, ◌==◌, if◌then◌else◌,
}
use fslite.Schema.{ChunkRow}
use fslite.Sql.{constraint_violation, done, failed, Sql, find_by, any_by, has_generation}

abbrev pub chunk_size : ℕ
chunk_size = 1048576

abbrev pub chunk_index_of : ℕ → ℕ
chunk_index_of offset = offset / chunk_size

abbrev pub chunk_local_offset : ℕ → ℕ
chunk_local_offset offset = offset % chunk_size

-- the key of `content_chunks`
abbrev pub is_chunk : ℕ → ℕ → ChunkRow → Bool
is_chunk generation index c = c.generation_id == generation && c.chunk_index == index

unfoldable pub chunk_bytes : List ChunkRow → ℕ → ℕ → Text
chunk_bytes rows generation index = elim (find_by (is_chunk generation index) rows) [
  | none ↦ []
  | some c ↦ c.bytes
]

unfoldable pub fetch_chunk_bytes : ℕ → ℕ → Sql Text
fetch_chunk_bytes generation index db = done (chunk_bytes db.chunks generation index) db

-- a row, or the row that it is in conflict with as it becomes
unfoldable pub upserted : ChunkRow → List ChunkRow → List ChunkRow
upserted new [] = new ∷ []
upserted new (c ∷ rows) =
    let rest = upserted new rows in
    if is_chunk new.generation_id new.chunk_index c then new ∷ rows else c ∷ rest

unfoldable pub upsert_chunk : ℕ → ℕ → Text → Sql (Unit {0})
upsert_chunk generation index bytes db =
    if has_generation db generation
    then done tt (record db {
      chunks =
          upserted (record { generation_id = generation; chunk_index = index; bytes = bytes })
            db.chunks;
    })
    else failed constraint_violation db.ticks

-- what the SELECT of `copy_chunk_range` gives
unfoldable pub chunk_range : ℕ → ℕ → ℕ → ℕ → List ChunkRow → List ChunkRow
chunk_range from to first behind [] = []
chunk_range from to first behind (c ∷ rows) =
    let rest = chunk_range from to first behind rows in
    if c.generation_id == from && (leb first c.chunk_index && ltb c.chunk_index behind)
    then record c { generation_id = to } ∷ rest
    else rest

-- INSERT INTO content_chunks … SELECT …, without an ON CONFLICT
unfoldable pub copy_chunk_range : ℕ → ℕ → ℕ → ℕ → Sql (Unit {0})
copy_chunk_range from to first behind db =
    let copies = chunk_range from to first behind db.chunks in
    if has_generation db to
      && not (any_by (λ c. any_by (is_chunk to c.chunk_index) db.chunks) copies)
    then done tt (record db { chunks = db.chunks ++ copies })
    else failed constraint_violation db.ticks
