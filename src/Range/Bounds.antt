-- ===== src/Range/Bounds.antt =====
-- The ranges that crates/fslite-server/src/range.rs resolves, and reading them.
use fslite.Common.{
  ℕ, ◌≤◌, ◌<◌, ◌≡◌, ap, subst, ◌∙◌, Option, none, some, List, [], ◌∷◌, Text, codes, strip_prefix,
  split_once, has_byte, ltb, leb, if◌then◌else◌, min, segment, concat, ◌==◌, inl, inr, Bool-cases,
  arith,
}
use fslite.Path.{VirtualPath}
use fslite.Fault
use fslite.Schema.{RawNode, Db}
use fslite.Sql.{returned}
use fslite.Resolve.{resolve}
use fslite.Content.Read.{ByteRange, read}
use fslite.Content.Reading.{Shows, read-Yields}
use package.fslite.Range.{
  Resolved, ok, err, malformed, multi_range_unsupported, u64_bound, parse_u64, saturating_suc,
  suffix_range, range_to, range_from, split_range, resolve_range,
}

-- The range lies in the content, and has a byte unless the content has none.
abbrev pub Within : ℕ → Resolved → Type 0
Within size (ok range) =
    (range.start ≤ range.end) × (range.end ≤ size) × (0 < size → range.start < range.end)
Within size (err e) = Unit

module _ (size : ℕ) where
  suffix_range-Within : (n : Option ℕ) → Within size (suffix_range n size)
  unfolding suffix_range
  suffix_range-Within none = tt
  suffix_range-Within (some n) = elim (Bool-cases (n == 0)) [
    | inl e ↦ rw e tt
    | inr e ↦ rw e (omega arith, omega arith, λ h. ground arith)
  ]

  range_to-Within :
      (start : ℕ) (last : Option ℕ)
      → start < size
      → size < u64_bound
      → Within size (range_to start last size)
  unfolding range_to saturating_suc
  range_to-Within start none h bound = tt
  range_to-Within start (some last) h bound = elim (Bool-cases (ltb last start)) [
    | inl e ↦ rw e tt
    | inr e ↦ rw e (ground arith, ground arith, λ pos. ground arith)
  ]

  range_from-Within :
      (start : Option ℕ) (end_str : Text)
      → size < u64_bound
      → Within size (range_from start end_str size)
  unfolding range_from
  range_from-Within none end_str bound = tt
  range_from-Within (some start) [] bound = elim (Bool-cases (leb size start)) [
    | inl e ↦ rw e tt
    | inr e ↦ rw e (ground arith, omega arith, λ pos. ground arith)
  ]
  range_from-Within (some start) (c ∷ cs) bound = elim (Bool-cases (leb size start)) [
    | inl e ↦ rw e tt
    | inr e ↦ rw e (range_to-Within start (parse_u64 (c ∷ cs)) (ground arith) bound)
  ]

  split_range-Within :
      (parts : Option (Text × Text)) → size < u64_bound → Within size (split_range parts size)
  unfolding split_range
  split_range-Within none bound = tt
  split_range-Within (some ([], end_str)) bound = suffix_range-Within (parse_u64 end_str)
  split_range-Within (some (c ∷ cs, end_str)) bound =
      range_from-Within (parse_u64 (c ∷ cs)) end_str bound

-- For every header, and a size that a u64 holds, the resolved range starts no later than it ends and
-- ends no later than the content, and it has a byte if the content has one.
pub resolve_range-Within :
    (header : Text) (size : ℕ) → size < u64_bound → Within size (resolve_range header size)
unfolding resolve_range
resolve_range-Within header size bound = spec (strip_prefix (codes "bytes=") header)
  where
    spec :
        (o : Option Text)
        → Within size (elim o [
          | none ↦ err malformed
          | some s ↦
              if◌then◌else◌
                (has_byte 44 s)
                (err multi_range_unsupported)
                (split_range (split_once 45 s) size)
        ])
    spec none = tt
    spec (some s) = elim (Bool-cases (has_byte 44 s)) [
      | inl e ↦ rw e tt
      | inr e ↦ rw e (split_range-Within size (split_once 45 s) bound)
    ]

-- A range that is resolved against the size of a file is one that reading the file serves: it gives
-- that range, and chunks that make up the content of it.
pub resolve_range-read :
    (db : Db) (ws : ℕ) (path : VirtualPath) (node : RawNode) (content header : Text)
    (range : ByteRange)
    → resolve db ws path ≡ some node
    → Shows db node content
    → node.size < u64_bound
    → resolve_range header node.size ≡ ok range
    → (chunks : List Text) × (read ws path (some range) db
        ≡ returned
            (Fault.ok (record {
              logical_length = node.size;
              revision = node.revision;
              range = range;
              stream = chunks;
            }))
            db)
      × (concat chunks ≡ segment content range.start range.end)
resolve_range-read db ws path node content header range found shows bound h =
    let (ordered, inside, rest) =
      subst (Within node.size) h (resolve_range-Within header node.size bound) in
    let cut = min_low range.end node.size inside in
    let (chunks, ends, same) =
      read-Yields db path node content (some range) ws found shows (omega arith) in
    (
      chunks,
      ends
          ∙ ap
              (λ e.
                returned
                  (Fault.ok (record {
                    logical_length = node.size;
                    revision = node.revision;
                    range = record { start = range.start; end = e };
                    stream = chunks;
                  }))
                  db)
              cut,
      same ∙ ap (segment content range.start) cut,
    )
  where
    min_low : (a b : ℕ) → a ≤ b → min a b ≡ a
    min_low a b h = ground arith
