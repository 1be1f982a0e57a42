-- ===== src/Content/Slicing.antt =====
-- The chunks between two offsets, of crates/fslite-sqlite/src/content.rs: cut at both ends, they
-- are the content between the offsets.
use fslite.Common.{
  ℕ, suc, ◌+◌, ◌-◌, ◌*◌, ◌≤◌, ◌<◌, ◌≡◌, sym, ap, ◌∙◌, true, false, [], ◌++◌, Text, length, take,
  drop, min, segment, take-min, drop-min, drop-drop, drop-take, take-take, segment-append, ltb,
  ◌==◌, if◌then◌else◌, inl, inr, ◌⊎◌, Bool-cases, arith,
}
use package.fslite.Content.Chunks.{chunk_size, chunk_index_of, chunk_local_offset}
use package.fslite.Content.Writer.{chunk_slice}

sub_twice : (a b c d : ℕ) → b + c ≡ d → a - b - c ≡ a - d
sub_twice a b c d h = omega arith

-- where a chunk's part of the range starts and ends
abbrev pub low : ℕ → ℕ → ℕ
low from i = if ltb from (i * chunk_size) then i * chunk_size else from

abbrev high : ℕ → ℕ → ℕ
high to i = min to (suc i * chunk_size)

abbrev chunk : Text → ℕ → Text
chunk content i = take chunk_size (drop (i * chunk_size) content)

high_last :
    (to i : ℕ)
    → 0 < to
    → (i == chunk_index_of (to - 1)) ≡ true
    → chunk_local_offset (to - 1) + 1 ≡ high to i - i * chunk_size
high_last to i pos e = ground arith

high_other :
    (to i : ℕ)
    → i ≤ chunk_index_of (to - 1)
    → (i == chunk_index_of (to - 1)) ≡ false
    → chunk_size ≡ high to i - i * chunk_size
high_other to i h e = ground arith

low_first :
    (from i : ℕ)
    → (i == chunk_index_of from) ≡ true
    → (low from i ≡ from) × (i * chunk_size + chunk_local_offset from ≡ from)
low_first from i e = (ground arith, ground arith)

low_other :
    (from i : ℕ)
    → chunk_index_of from ≤ i
    → (i == chunk_index_of from) ≡ false
    → low from i ≡ i * chunk_size
low_other from i h e = ground arith

-- the end is cut off
cut_end :
    (content : Text) (to i : ℕ)
    → 0 < to
    → i ≤ chunk_index_of (to - 1)
    → (if i == chunk_index_of (to - 1)
        then take
            (min (chunk_local_offset (to - 1) + 1) (length (chunk content i)))
            (chunk content i)
        else chunk content i)
      ≡ take (high to i - i * chunk_size) (drop (i * chunk_size) content)
cut_end content to i pos h = elim (Bool-cases (i == chunk_index_of (to - 1))) [
  | inl e ↦ rw e (
      take-min (chunk_local_offset (to - 1) + 1) (chunk content i)
      ∙ take-take (chunk_local_offset (to - 1) + 1) chunk_size (drop (i * chunk_size) content)
          (omega arith)
      ∙ ap (λ n. take n (drop (i * chunk_size) content)) (high_last to i pos e))
  | inr e ↦ rw e (ap (λ n. take n (drop (i * chunk_size) content)) (high_other to i h e))
]

-- the start is cut off
cut_start :
    (content : Text) (from to i : ℕ)
    → chunk_index_of from ≤ i
    → (kept : Text) → kept ≡ take (high to i - i * chunk_size) (drop (i * chunk_size) content)
    → (if i == chunk_index_of from
        then drop (min (chunk_local_offset from) (length kept)) kept
        else kept)
      ≡ segment content (low from i) (high to i)
cut_start content from to i h kept k = elim (Bool-cases (i == chunk_index_of from)) [
  | inl e ↦
      let (first, same) = low_first from i e in
      rw e (
        drop-min (chunk_local_offset from) kept
        ∙ ap (drop (chunk_local_offset from)) k
        ∙ drop-take (chunk_local_offset from) (high to i - i * chunk_size)
            (drop (i * chunk_size) content)
        ∙ ap (take (high to i - i * chunk_size - chunk_local_offset from)) (
            drop-drop (chunk_local_offset from) (i * chunk_size) content
            ∙ ap (λ n. drop n content) (same ∙ sym first))
        ∙ ap (λ n. take n (drop (low from i) content))
            (sub_twice (high to i) (i * chunk_size) (chunk_local_offset from) (low from i)
              (same ∙ sym first)))
  | inr e ↦ rw e (k ∙ ap (λ n. segment content n (high to i)) (sym (low_other from i h e)))
]

chunk_slice-segment :
    (content : Text) (from to i : ℕ)
    → from < to
    → chunk_index_of from ≤ i
    → i ≤ chunk_index_of (to - 1)
    → chunk_slice from to i (chunk content i) ≡ segment content (low from i) (high to i)
unfolding chunk_slice
chunk_slice-segment content from to i less h k =
    cut_start content from to i h _ (cut_end content to i (omega arith) k)

-- the range from a chunk on is the chunk's part, and the range from the next chunk on
pub chunk_slice-behind :
    (content : Text) (from to i : ℕ)
    → from < to
    → chunk_index_of from ≤ i
    → i ≤ chunk_index_of (to - 1)
    → chunk_slice from to i (chunk content i) ++ segment content (low from (suc i)) to
      ≡ segment content (low from i) to
chunk_slice-behind content from to i less h k =
    ap (λ t. t ++ segment content (low from (suc i)) to)
      (chunk_slice-segment content from to i less h k)
    ∙ ap (λ t. segment content (low from i) (high to i) ++ t)
        (behind (Bool-cases (ltb (suc i * chunk_size) to)))
    ∙ segment-append content (low from i) (high to i) to (ground arith) (ground arith)
  where
    behind :
        (ltb (suc i * chunk_size) to ≡ true) ⊎ (ltb (suc i * chunk_size) to ≡ false)
        → segment content (low from (suc i)) to ≡ segment content (high to i) to
    behind (inl e) = ap (λ n. segment content n to) (ground arith)
    behind (inr e) =
        ap (λ n. take n (drop (low from (suc i)) content)) {x = to - low from (suc i)} {y = 0}
          (ground arith)
        ∙ sym (
            ap (λ n. take n (drop (high to i) content)) {x = to - high to i} {y = 0} (ground arith))

pub segment-none : (content : Text) (a b : ℕ) → b ≤ a → segment content a b ≡ []
segment-none content a b h = ap (λ n. take n (drop a content)) {x = b - a} {y = 0} (omega arith)

pub low_end : (from to : ℕ) → from < to → to ≤ low from (suc (chunk_index_of (to - 1)))
low_end from to less = ground arith

pub low_start : (from : ℕ) → low from (chunk_index_of from) ≡ from
low_start from = ground arith
