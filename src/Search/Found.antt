-- ===== src/Search/Found.antt =====
-- What `search_file` of crates/fslite-sqlite/src/search.rs finds in a file.
use mathlib.Core.List.{map}
use fslite.Common.{
  ℕ, zero, suc, ◌+◌, ◌-◌, ◌*◌, ◌≤◌, ◌<◌, ◌≡◌, refl, sym, ap, subst, ◌∙◌, false, some, List, [], ◌∷◌,
  ◌++◌, Text, append_assoc, append-nil, length, take, drop, length-drop, drop_all, leb, inl, inr,
  Bool-cases, arith,
}
use fslite.Schema.{RawNode, Db}
use fslite.Sql.{Ran, done, Sql}
use fslite.Content.Chunks.{chunk_size, fetch_chunk_bytes}
use fslite.Content.Stored.{Holds}
use package.fslite.Search.Contents.{
  RawSearchMatch, search_byte_budget, occurrences, find_all_occurrences, match_at,
  next_overlap_start, search_chunk, search_generation, search_loop, search_file,
}
use package.fslite.Search.Occurrences.{occurrences-short}
use package.fslite.Search.Pieces.{
  span_of, spans, fetched, no_chunk, next_chunk, spans-found, map-append, spans-append,
  buffer_places,
}

-- The run ends, with the tables as they are, those places found, and that number of bytes scanned.
abbrev pub Finds : Db → Text → List ℕ → ℕ → Ran (List RawSearchMatch × ℕ) → Type 0
Finds db needle places scanned run =
    (matches : List RawSearchMatch) × (run ≡ done (matches, scanned) db)
    × (map span_of matches ≡ spans needle places)

module _ (node : RawNode) (path : Text) (n : ℕ) (ns : Text) where
  nothing :
      (db : Db) (content : Text) (index : ℕ) (overlap : Text) (base scanned : ℕ)
      → length overlap ≤ length ns
      → length content ≤ index * chunk_size
      → Finds db
          (n ∷ ns)
          (occurrences (n ∷ ns) base (overlap ++ drop (index * chunk_size) content))
          (scanned + (length content - index * chunk_size))
          (done ([], scanned) db)
  nothing db content index overlap base scanned short over = (
    [],
    ap (λ m. done ([], m) db) {x = scanned} (omega arith),
    sym (
        ap (spans (n ∷ ns)) (
          ap (λ t. occurrences (n ∷ ns) base (overlap ++ t))
            (drop_all (index * chunk_size) content over)
          ∙ ap (occurrences (n ∷ ns) base) (append-nil overlap)
          ∙ occurrences-short (n ∷ ns) base overlap (omega arith))),
  )

  search_chunk-step :
      (db : Db) (next : Text → ℕ → ℕ → Sql (List RawSearchMatch × ℕ)) (overlap : Text)
      (base scanned : ℕ) (chunk : Text) (rest : List RawSearchMatch × ℕ)
      → 0 < length chunk
      → next
          (drop (next_overlap_start (n ∷ ns) (overlap ++ chunk)) (overlap ++ chunk))
          (base + next_overlap_start (n ∷ ns) (overlap ++ chunk))
          (scanned + length chunk)
          db
        ≡ done rest db
      → search_chunk node path (n ∷ ns) next overlap base scanned chunk db
        ≡ done
            (
              map
                    (match_at node path (n ∷ ns) (overlap ++ chunk) base)
                    (find_all_occurrences (overlap ++ chunk) (n ∷ ns))
                  ++ rest.0,
              rest.1,
            )
            db
  unfolding search_chunk
  search_chunk-step db next overlap base scanned [] rest some_byte ends = absurd (omega arith)
  search_chunk-step db next overlap base scanned (b ∷ bytes) rest some_byte ends =
      rw (search_chunk, ends) refl

  search_step :
      (db : Db) (g rounds index : ℕ) (overlap : Text) (base scanned : ℕ) (chunk : Text)
      (rest : List RawSearchMatch × ℕ)
      → leb search_byte_budget scanned ≡ false
      → fetch_chunk_bytes g index db ≡ done chunk db
      → 0 < length chunk
      → search_loop node path
          (n ∷ ns)
          rounds
          g
          (suc index)
          (drop (next_overlap_start (n ∷ ns) (overlap ++ chunk)) (overlap ++ chunk))
          (base + next_overlap_start (n ∷ ns) (overlap ++ chunk))
          (scanned + length chunk)
          db
        ≡ done rest db
      → search_loop node path (n ∷ ns) (suc rounds) g index overlap base scanned db
        ≡ done
            (
              map
                    (match_at node path (n ∷ ns) (overlap ++ chunk) base)
                    (find_all_occurrences (overlap ++ chunk) (n ∷ ns))
                  ++ rest.0,
              rest.1,
            )
            db
  unfolding search_loop
  search_step db g rounds index overlap base scanned chunk rest e fetch some_byte ends =
      rw (search_loop, e, fetch)
        (search_chunk-step db (search_loop node path (n ∷ ns) rounds g (suc index)) overlap base
          scanned chunk rest some_byte ends)

  -- The rounds from a chunk on, with an overlap too short for the needle.
  search_loop-Finds :
      (db : Db) (g : ℕ) (content : Text)
      → Holds db.chunks g content
      → (rounds index : ℕ) (overlap : Text) (base scanned : ℕ) → length overlap ≤ length ns
      → 0 < rounds
      → search_byte_budget < scanned + rounds
      → scanned + (length content - index * chunk_size) ≤ search_byte_budget
      → Finds db
          (n ∷ ns)
          (occurrences (n ∷ ns) base (overlap ++ drop (index * chunk_size) content))
          (scanned + (length content - index * chunk_size))
          (search_loop node path (n ∷ ns) rounds g index overlap base scanned db)
  unfolding search_loop search_chunk
  search_loop-Finds db g content holds zero index overlap base scanned short pos enough budget =
      absurd (omega arith)
  search_loop-Finds db g content holds (suc rounds) index overlap base scanned short pos enough
        budget =
      elim (Bool-cases (leb search_byte_budget scanned)) [
        | inl e ↦
            rw (search_loop, e) (nothing db content index overlap base scanned short (ground arith))
        | inr e ↦ elim (Bool-cases (leb (length content) (index * chunk_size))) [
          | inl k ↦
              rw
                (
                  search_loop,
                  e,
                  fetched db g content index holds,
                  no_chunk content index (ground arith),
                )
                (nothing db content index overlap base scanned short (ground arith))
          | inr k ↦
              let chunk = take chunk_size (drop (index * chunk_size) content) in
              let (rest_is, size, some_byte) = next_chunk content index (ground arith) in
              let buffer = overlap ++ chunk in
              let o = next_overlap_start (n ∷ ns) buffer in
              let kept = length-drop o buffer in
              let (found, ends, same) =
                search_loop-Finds db g content holds rounds (suc index) (drop o buffer) (base + o)
                  (scanned + length chunk) (omega arith) (ground arith) (ground arith)
                  (omega arith) in
              (
                map (match_at node path (n ∷ ns) buffer base) (find_all_occurrences buffer (n ∷ ns))
                    ++ found,
                search_step db g rounds index overlap base scanned chunk
                      (found, scanned + length chunk + (length content - suc index * chunk_size)) e
                      (fetched db g content index holds) some_byte ends
                    ∙ ap
                        (λ m.
                          done
                            (
                              map (match_at node path (n ∷ ns) buffer base)
                                    (find_all_occurrences buffer (n ∷ ns))
                                  ++ found,
                              m,
                            )
                            db)
                        (omega arith),
                map-append node path n ns
                      (map (match_at node path (n ∷ ns) buffer base)
                        (find_all_occurrences buffer (n ∷ ns)))
                      found
                    ∙ ap (λ l. l ++ map span_of found)
                        (spans-found node path n ns buffer base
                          (find_all_occurrences buffer (n ∷ ns)))
                    ∙ ap
                        (λ l.
                          spans (n ∷ ns)
                            (map (λ s. base + s) (find_all_occurrences buffer (n ∷ ns)))
                          ++ l)
                        same
                    ∙ sym (
                        spans-append node path n ns
                          (map (λ s. base + s) (find_all_occurrences buffer (n ∷ ns)))
                          (occurrences (n ∷ ns) (base + o)
                            (drop o buffer ++ drop (suc index * chunk_size) content)))
                    ∙ ap (spans (n ∷ ns)) (
                        sym (
                          buffer_places node path n ns buffer
                            (drop (suc index * chunk_size) content) base))
                    ∙ ap (λ t. spans (n ∷ ns) (occurrences (n ∷ ns) base t))
                        (append_assoc overlap chunk (drop (suc index * chunk_size) content)
                          ∙ ap (λ t. overlap ++ t) (sym rest_is)),
              )
        ]
      ]

  -- Unless the budget is used up, all the places of a needle in a file are found, also those that reach
  -- from chunk to chunk, in their order and each once, with where they start and end.
  pub search_file-Finds :
      (db : Db) (g : ℕ) (content : Text) (bytes_scanned : ℕ)
      → node.content_generation_id ≡ some g
      → Holds db.chunks g content
      → bytes_scanned + length content ≤ search_byte_budget
      → Finds db
          (n ∷ ns)
          (find_all_occurrences content (n ∷ ns))
          (bytes_scanned + length content)
          (search_file node path (n ∷ ns) bytes_scanned db)
  unfolding search_file search_generation find_all_occurrences
  search_file-Finds db g content scanned e holds budget =
      subst
        (λ o.
          Finds db (n ∷ ns) (find_all_occurrences content (n ∷ ns)) (scanned + length content)
            (search_generation node path (n ∷ ns) o scanned db))
        (sym e)
        (subst
          (λ m.
            Finds db (n ∷ ns) (occurrences (n ∷ ns) 0 content) (scanned + m)
              (search_loop node path (n ∷ ns) (suc search_byte_budget) g 0 [] 0 scanned db))
          {x = length content - 0} (omega arith)
          (search_loop-Finds db g content holds (suc search_byte_budget) 0 [] 0 scanned
            (omega arith) (omega arith) (omega arith) (omega arith)))
