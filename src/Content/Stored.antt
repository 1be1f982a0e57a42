-- ===== src/Content/Stored.antt =====
-- What a generation holds, and how the statements on `content_chunks` change it.
use fslite.Common.{
  ℕ, ◌*◌, ◌≡◌, refl, sym, ◌∙◌, true, false, not, ◌&&◌, List, [], ◌∷◌, ◌++◌, Text, take, drop, leb,
  ltb, ◌==◌, or-eq-false, inl, inr, Bool-cases, arith,
}
use fslite.Schema.{ChunkRow}
use fslite.Sql.{find_by, any_by, keep_by}
use package.fslite.Content.Chunks.{chunk_size, is_chunk, chunk_bytes, upserted, chunk_range}

-- The chunks of the generation are the content, cut at the multiples of the chunk size.
abbrev pub Holds : List ChunkRow → ℕ → Text → Type 0
Holds rows generation content =
    (i : ℕ) → chunk_bytes rows generation i ≡ take chunk_size (drop (i * chunk_size) content)

-- the chunks of other generations are the same
abbrev pub Spares : ℕ → List ChunkRow → List ChunkRow → Type 0
Spares generation rows rows' =
    (g : ℕ) → (g == generation) ≡ false → (i : ℕ) → chunk_bytes rows' g i ≡ chunk_bytes rows g i

-- the first row is the chunk, or it is not
module _ (c : ChunkRow) (rows : List ChunkRow) where
  chunk_bytes_here : (g i : ℕ) → is_chunk g i c ≡ true → chunk_bytes (c ∷ rows) g i ≡ c.bytes
  unfolding chunk_bytes find_by
  chunk_bytes_here g i e = rw (chunk_bytes, e) refl

  chunk_bytes_behind :
      (g i : ℕ) → is_chunk g i c ≡ false → chunk_bytes (c ∷ rows) g i ≡ chunk_bytes rows g i
  unfolding chunk_bytes find_by
  chunk_bytes_behind g i e = rw (chunk_bytes, e) refl

  upserted_here :
      (new : ChunkRow)
      → is_chunk new.generation_id new.chunk_index c ≡ true
      → upserted new (c ∷ rows) ≡ new ∷ rows
  unfolding upserted
  upserted_here new e = rw e refl

  upserted_behind :
      (new : ChunkRow)
      → is_chunk new.generation_id new.chunk_index c ≡ false
      → upserted new (c ∷ rows) ≡ c ∷ upserted new rows
  unfolding upserted
  upserted_behind new e = rw e refl

pub chunk_bytes-upserted :
    (rows : List ChunkRow) (new : ChunkRow)
    → chunk_bytes (upserted new rows) new.generation_id new.chunk_index ≡ new.bytes
unfolding upserted
chunk_bytes-upserted [] new =
    chunk_bytes_here new [] new.generation_id new.chunk_index (ground arith)
chunk_bytes-upserted (c ∷ rows) new =
    elim (Bool-cases (is_chunk new.generation_id new.chunk_index c)) [
      | inl e ↦
          rw (upserted_here c rows new e)
            (chunk_bytes_here new rows new.generation_id new.chunk_index (ground arith))
      | inr e ↦ rw (upserted_behind c rows new e) (
          chunk_bytes_behind c (upserted new rows) new.generation_id new.chunk_index e
          ∙ chunk_bytes-upserted rows new)
    ]

pub chunk_bytes-upserted_other :
    (rows : List ChunkRow) (new : ChunkRow) (g i : ℕ)
    → is_chunk g i new ≡ false
    → chunk_bytes (upserted new rows) g i ≡ chunk_bytes rows g i
unfolding upserted
chunk_bytes-upserted_other [] new g i n = chunk_bytes_behind new [] g i n
chunk_bytes-upserted_other (c ∷ rows) new g i n =
    elim (Bool-cases (is_chunk new.generation_id new.chunk_index c)) [
      | inl e ↦
          rw (upserted_here c rows new e)
            (chunk_bytes_behind new rows g i n ∙ sym (chunk_bytes_behind c rows g i (ground arith)))
      | inr e ↦ rw (upserted_behind c rows new e) (same (chunk_bytes-upserted_other rows new g i n))
    ]
  where
    same :
        chunk_bytes (upserted new rows) g i ≡ chunk_bytes rows g i
        → chunk_bytes (c ∷ upserted new rows) g i ≡ chunk_bytes (c ∷ rows) g i
    same rest = elim (Bool-cases (is_chunk g i c)) [
      | inl h ↦ chunk_bytes_here c (upserted new rows) g i h ∙ sym (chunk_bytes_here c rows g i h)
      | inr h ↦
          chunk_bytes_behind c (upserted new rows) g i h
          ∙ rest
          ∙ sym (chunk_bytes_behind c rows g i h)
    ]

-- Deleting another generation, with its chunks.
pub chunk_bytes-keep_by :
    (rows : List ChunkRow) (deleted g i : ℕ)
    → (g == deleted) ≡ false
    → chunk_bytes (keep_by (λ c. not (c.generation_id == deleted)) rows) g i ≡ chunk_bytes rows g i
unfolding keep_by
chunk_bytes-keep_by [] deleted g i n = refl
chunk_bytes-keep_by (c ∷ rows) deleted g i n =
    let rest = chunk_bytes-keep_by rows deleted g i n in
    let kept = keep_by (λ c. not (c.generation_id == deleted)) rows in
    elim (Bool-cases (c.generation_id == deleted)) [
      | inl e ↦ rw e (rest ∙ sym (chunk_bytes_behind c rows g i (ground arith)))
      | inr e ↦ rw e (elim (Bool-cases (is_chunk g i c)) [
        | inl h ↦ chunk_bytes_here c kept g i h ∙ sym (chunk_bytes_here c rows g i h)
        | inr h ↦ chunk_bytes_behind c kept g i h ∙ rest ∙ sym (chunk_bytes_behind c rows g i h)
      ])
    ]

pub chunk_bytes-none :
    (rows : List ChunkRow) (g i : ℕ)
    → any_by (is_chunk g i) rows ≡ false
    → chunk_bytes rows g i ≡ []
unfolding any_by chunk_bytes find_by
chunk_bytes-none [] g i n = refl
chunk_bytes-none (c ∷ rows) g i n =
    let (here, behind) = or-eq-false (is_chunk g i c) (any_by (is_chunk g i) rows) n in
    chunk_bytes_behind c rows g i here ∙ chunk_bytes-none rows g i behind

-- Rows that are added count where there was none.
pub chunk_bytes-append_left :
    (rows more : List ChunkRow) (g i : ℕ)
    → any_by (is_chunk g i) more ≡ false
    → chunk_bytes (rows ++ more) g i ≡ chunk_bytes rows g i
unfolding any_by chunk_bytes find_by
chunk_bytes-append_left [] more g i n = chunk_bytes-none more g i n
chunk_bytes-append_left (c ∷ rows) more g i n = elim (Bool-cases (is_chunk g i c)) [
  | inl h ↦ chunk_bytes_here c (rows ++ more) g i h ∙ sym (chunk_bytes_here c rows g i h)
  | inr h ↦
      chunk_bytes_behind c (rows ++ more) g i h
      ∙ chunk_bytes-append_left rows more g i n
      ∙ sym (chunk_bytes_behind c rows g i h)
]

pub chunk_bytes-append_right :
    (rows more : List ChunkRow) (g i : ℕ)
    → any_by (λ c. c.generation_id == g) rows ≡ false
    → chunk_bytes (rows ++ more) g i ≡ chunk_bytes more g i
unfolding any_by
chunk_bytes-append_right [] more g i n = refl
chunk_bytes-append_right (c ∷ rows) more g i n =
    let (here, behind) =
      or-eq-false (c.generation_id == g) (any_by (λ c. c.generation_id == g) rows) n in
    chunk_bytes_behind c (rows ++ more) g i (ground arith)
    ∙ chunk_bytes-append_right rows more g i behind

-- The copies are the chunks below the end, under the new generation.
pub chunk_bytes-chunk_range :
    (rows : List ChunkRow) (from to behind i : ℕ)
    → ltb i behind ≡ true
    → chunk_bytes (chunk_range from to 0 behind rows) to i ≡ chunk_bytes rows from i
unfolding chunk_range any_by
chunk_bytes-chunk_range [] from to behind i h =
    chunk_bytes-none [] to i refl ∙ sym (chunk_bytes-none [] from i refl)
chunk_bytes-chunk_range (c ∷ rows) from to behind i h =
    let rest = chunk_bytes-chunk_range rows from to behind i h in
    let copies = chunk_range from to 0 behind rows in
    let copy = record c { generation_id = to } in
    elim (Bool-cases
      (c.generation_id == from && (leb 0 c.chunk_index && ltb c.chunk_index behind))) [
        | inl e ↦ rw e (elim (Bool-cases (is_chunk from i c)) [
          | inl k ↦
              chunk_bytes_here copy copies to i (ground arith)
              ∙ sym (chunk_bytes_here c rows from i k)
          | inr k ↦
              chunk_bytes_behind copy copies to i (ground arith)
              ∙ rest
              ∙ sym (chunk_bytes_behind c rows from i k)
        ])
        | inr e ↦ rw e (rest ∙ sym (chunk_bytes_behind c rows from i (ground arith)))
      ]

-- a chunk that no row of the copies is
pub any_by-chunk_range :
    (rows : List ChunkRow) (from to behind g i : ℕ)
    → (g == to && ltb i behind) ≡ false
    → any_by (is_chunk g i) (chunk_range from to 0 behind rows) ≡ false
unfolding chunk_range any_by
any_by-chunk_range [] from to behind g i h = refl
any_by-chunk_range (c ∷ rows) from to behind g i h =
    let rest = any_by-chunk_range rows from to behind g i h in
    elim (Bool-cases
      (c.generation_id == from && (leb 0 c.chunk_index && ltb c.chunk_index behind))) [
        | inl e ↦ rw (e, rest) (ground arith)
        | inr e ↦ rw e rest
      ]

pub any_by-other_index :
    (rows : List ChunkRow) (g i : ℕ)
    → any_by (λ c. c.generation_id == g) rows ≡ false
    → any_by (is_chunk g i) rows ≡ false
unfolding any_by
any_by-other_index [] g i h = refl
any_by-other_index (c ∷ rows) g i h =
    let (here, behind) =
      or-eq-false (c.generation_id == g) (any_by (λ c. c.generation_id == g) rows) h in
    rw (any_by-other_index rows g i behind) (ground arith)

-- a generation with no chunks has none that a copy could meet
pub no_conflict :
    (rows copies : List ChunkRow) (g : ℕ)
    → any_by (λ c. c.generation_id == g) rows ≡ false
    → any_by (λ c. any_by (is_chunk g c.chunk_index) rows) copies ≡ false
unfolding any_by
no_conflict rows [] g h = refl
no_conflict rows (c ∷ copies) g h =
    rw (any_by-other_index rows g c.chunk_index h, no_conflict rows copies g h) refl
