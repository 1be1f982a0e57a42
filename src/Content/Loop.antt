-- ===== src/Content/Loop.antt =====
-- The loop of `ChunkWriter::write_bytes` of crates/fslite-sqlite/src/content.rs.
use fslite.Common.{
  ℕ, zero, suc, ◌+◌, ◌-◌, ◌≤◌, ◌<◌, ◌≡◌, refl, sym, ap, subst, ◌∙◌, true, [], ◌∷◌, ◌++◌,
  append_assoc, append-nil, Text, length, take, drop, min, length-append, length-drop, length-take,
  take-drop, ltb, inl, inr, Bool-cases, arith,
}
use fslite.Fault.{ok}
use fslite.Schema.{Db}
use fslite.Sql.{Returned, returned, has_generation}
use package.fslite.Content.Calls.{Async, awaited}
use package.fslite.Content.Chunks.{chunk_size}
use package.fslite.Content.Writer.{ChunkWriter, extended, settle, write_loop, write_bytes}
use package.fslite.Content.Filling.{
  Filling, Wrote, Refused, extended-Filling, settle-Wrote, settle-Refused,
}

-- What follows a run that wrote.
module _ (next : ChunkWriter → Async ChunkWriter) {db : Db} {g max : ℕ}
    {run : Returned ChunkWriter} where
  pub Wrote-then :
      {content longer : Text} (w : Wrote db g max run content)
      → Wrote
          (record db { chunks = w.rows })
          g
          max
          (next w.after (record db { chunks = w.rows }))
          longer
      → Wrote db g max (awaited run next) longer
  Wrote-then w more = record {
    after = more.after;
    rows = more.rows;
    ends = ap (λ r. awaited r next) w.ends ∙ more.ends;
    filling = more.filling;
    room = more.room;
    same_generation = more.same_generation;
    same_max = more.same_max;
    spares = λ h n i. more.spares h n i ∙ w.spares h n i;
  }

  pub Wrote-Refused :
      {content : Text} (w : Wrote db g max run content)
      → Refused (record db { chunks = w.rows }) g max (next w.after (record db { chunks = w.rows }))
      → Refused db g max (awaited run next)
  Wrote-Refused w more = record {
    rows = more.rows;
    ends = ap (λ r. awaited r next) w.ends ∙ more.ends;
    spares = λ h n i. more.spares h n i ∙ w.spares h n i;
  }

  pub Refused-then : Refused db g max run → Refused db g max (awaited run next)
  Refused-then r = record {
    rows = r.rows;
    ends = ap (λ s. awaited s next) r.ends;
    spares = r.spares;
  }

-- A writer that can be written to: its generation is there, and what it has taken is known.
pub record Ready (db : Db) (g max : ℕ) (w : ChunkWriter) (content : Text) : Type 0 where
  pub generation : w.generation_id ≡ g
  pub limit : w.max_file_bytes ≡ max
  pub exists : has_generation db g ≡ true
  pub filling : Filling db.chunks w content
  pub room : length w.buffer < chunk_size

pub Wrote-Ready :
    {db : Db} {g max : ℕ} {run : Returned ChunkWriter} {content : Text}
    → has_generation db g ≡ true
    → (w : Wrote db g max run content) → Ready (record db { chunks = w.rows }) g max w.after content
unfolding has_generation
Wrote-Ready has w = record {
  generation = w.same_generation;
  limit = w.same_max;
  exists = has;
  filling = w.filling;
  room = w.room;
}

-- the piece that a round takes
abbrev piece : ChunkWriter → Text → Text
piece w bytes = take (min (chunk_size - length w.buffer) (length bytes)) bytes

abbrev rest_of : ChunkWriter → Text → Text
rest_of w bytes = drop (min (chunk_size - length w.buffer) (length bytes)) bytes

length-piece :
    (w : ChunkWriter) (bytes : Text)
    → (length (piece w bytes) ≡ min (chunk_size - length w.buffer) (length bytes))
      × (length (rest_of w bytes)
          ≡ length bytes - min (chunk_size - length w.buffer) (length bytes))
length-piece w bytes = (
  length-take (min (chunk_size - length w.buffer) (length bytes)) bytes (ground arith),
  length-drop (min (chunk_size - length w.buffer) (length bytes)) bytes,
)

-- One round: the piece is taken, and the quota decides.
settled :
    (db : Db) (g max : ℕ) (w : ChunkWriter) (content taken : Text)
    → Ready db g max w content
    → length w.buffer + length taken ≤ chunk_size
    → length content + length taken ≤ max
    → Wrote db g max (settle (extended w taken) db) (content ++ taken)
unfolding extended
settled db g max w content taken r h below =
    let longer = length-append content taken in
    subst (λ m. Wrote db g m (settle (extended w taken) db) (content ++ taken)) r.limit
      (subst (λ n. Wrote db n w.max_file_bytes (settle (extended w taken) db) (content ++ taken))
        r.generation
        (settle-Wrote db (extended w taken) (content ++ taken)
          (ap (has_generation db) r.generation ∙ r.exists) (extended-Filling taken r.filling h)
          (let limit = r.limit in omega arith)))

settled_over :
    (db : Db) (g max : ℕ) (w : ChunkWriter) (content taken : Text)
    → Ready db g max w content
    → length w.buffer + length taken ≤ chunk_size
    → max < length content + length taken
    → Refused db g max (settle (extended w taken) db)
unfolding extended
settled_over db g max w content taken r h over =
    let longer = length-append content taken in
    subst (λ m. Refused db g m (settle (extended w taken) db)) r.limit
      (subst (λ n. Refused db n w.max_file_bytes (settle (extended w taken) db)) r.generation
        (settle-Refused db (extended w taken) (content ++ taken)
          (extended-Filling taken r.filling h) (let limit = r.limit in omega arith)))

piece-rest :
    (w : ChunkWriter) (content bytes : Text)
    → (content ++ piece w bytes) ++ rest_of w bytes ≡ content ++ bytes
piece-rest w content bytes =
    append_assoc content (piece w bytes) (rest_of w bytes)
    ∙ ap (λ t. content ++ t) (take-drop (min (chunk_size - length w.buffer) (length bytes)) bytes)

pub done-Wrote :
    (db : Db) (g max : ℕ) (w : ChunkWriter) (content : Text)
    → Ready db g max w content
    → Wrote db g max (returned (ok w) db) content
done-Wrote db g max w content r = record {
  after = w;
  rows = db.chunks;
  ends = refl;
  filling = r.filling;
  room = r.room;
  same_generation = r.generation;
  same_max = r.limit;
  spares = λ h n i. refl;
}

module _ (g max : ℕ) where
  -- Up to the quota, the loop takes all of the bytes.
  pub write_loop-Wrote :
      (rounds : ℕ) (bytes : Text) (db : Db) (w : ChunkWriter) (content : Text)
      → length bytes ≤ rounds
      → Ready db g max w content
      → length content + length bytes ≤ max
      → Wrote db g max (write_loop rounds bytes w db) (content ++ bytes)
  unfolding write_loop
  write_loop-Wrote rounds [] db w content enough r h =
      subst (Wrote db g max (returned (ok w) db)) (sym (append-nil content))
        (done-Wrote db g max w content r)
  write_loop-Wrote zero (b ∷ bytes) db w content enough r h = absurd (omega arith)
  write_loop-Wrote (suc rounds) (b ∷ bytes) db w content enough r h =
      let room = r.room in
      let (taken, left) = length-piece w (b ∷ bytes) in
      let longer = length-append content (piece w (b ∷ bytes)) in
      let s = settled db g max w content (piece w (b ∷ bytes)) r (ground arith) (ground arith) in
      Wrote-then (write_loop rounds (rest_of w (b ∷ bytes))) s (
        subst
          (Wrote (record db { chunks = s.rows }) g max
            (write_loop rounds (rest_of w (b ∷ bytes)) s.after (record db { chunks = s.rows })))
          (piece-rest w content (b ∷ bytes))
          (write_loop-Wrote rounds (rest_of w (b ∷ bytes)) (record db { chunks = s.rows }) s.after
            (content ++ piece w (b ∷ bytes)) (ground arith) (Wrote-Ready r.exists s)
            (ground arith)))

  -- Beyond the quota, the loop ends with the error.
  pub write_loop-Refused :
      (rounds : ℕ) (bytes : Text) (db : Db) (w : ChunkWriter) (content : Text)
      → length bytes ≤ rounds
      → Ready db g max w content
      → length content ≤ max
      → max < length content + length bytes
      → Refused db g max (write_loop rounds bytes w db)
  unfolding write_loop
  write_loop-Refused rounds [] db w content enough r below h = absurd (omega arith)
  write_loop-Refused zero (b ∷ bytes) db w content enough r below h = absurd (omega arith)
  write_loop-Refused (suc rounds) (b ∷ bytes) db w content enough r below h =
      let room = r.room in
      let (taken, left) = length-piece w (b ∷ bytes) in
      let longer = length-append content (piece w (b ∷ bytes)) in
      elim (Bool-cases (ltb max (length content + length (piece w (b ∷ bytes))))) [
        | inl e ↦
            Refused-then (write_loop rounds (rest_of w (b ∷ bytes))) (
              settled_over db g max w content (piece w (b ∷ bytes)) r (ground arith) (ground arith))
        | inr e ↦
            let s =
              settled db g max w content (piece w (b ∷ bytes)) r (ground arith) (ground arith) in
            Wrote-Refused (write_loop rounds (rest_of w (b ∷ bytes))) s (
              write_loop-Refused rounds (rest_of w (b ∷ bytes)) (record db { chunks = s.rows })
                s.after (content ++ piece w (b ∷ bytes)) (ground arith) (Wrote-Ready r.exists s)
                (ground arith) (ground arith))
      ]

  -- `write_bytes` ends, and takes the bytes up to the quota.
  pub write_bytes-Wrote :
      (bytes : Text) (db : Db) (w : ChunkWriter) (content : Text)
      → Ready db g max w content
      → length content + length bytes ≤ max
      → Wrote db g max (write_bytes bytes w db) (content ++ bytes)
  unfolding write_bytes
  write_bytes-Wrote bytes db w content r h =
      write_loop-Wrote (length bytes) bytes db w content (omega arith) r h

  pub write_bytes-Refused :
      (bytes : Text) (db : Db) (w : ChunkWriter) (content : Text)
      → Ready db g max w content
      → length content ≤ max
      → max < length content + length bytes
      → Refused db g max (write_bytes bytes w db)
  unfolding write_bytes
  write_bytes-Refused bytes db w content r below h =
      write_loop-Refused (length bytes) bytes db w content (omega arith) r below h
