-- ===== src/Content/Splice.antt =====
-- What `write_at`, `append` and `truncate` of crates/fslite-sqlite/src/content.rs make of a file's
-- content.
use fslite.Common.{
  ℕ, ◌+◌, ◌-◌, ◌≤◌, ◌≡◌, sym, ap, subst, ◌∙◌, true, false, Option, none, some, [], ◌++◌, append-nil,
  Text, length, take, drop, min, length-append, length-take, length-drop, take_all, take-min,
  drop_all, ltb, ◌==◌, inl, inr, Bool-cases, arith,
}
use fslite.Fault.{ok}
use fslite.Schema.{RawNode, Db}
use fslite.Sql.{Returned, returned, has_generation}
use package.fslite.Content.Writer
use package.fslite.Content.Writer.{
  ChunkWriter, total_len, copy_prefix_from, copy_suffix_from, zero_fill,
}
use package.fslite.Content.Write.{
  generation_of, size_of, copy_old_prefix, fill_gap, copy_old_suffix,
}
use package.fslite.Content.Stored.{Holds}
use package.fslite.Content.Filling.{Wrote, total_len-Filling}
use package.fslite.Content.Loop.{Ready, done-Wrote}
use package.fslite.Content.Copying.{Unused, Holds-after, new-Ready}
use package.fslite.Content.Ranges.{
  zeros, length-zeros, copy_prefix_from-Wrote, copy_suffix_from-Wrote, zero_fill-Wrote,
}
use package.fslite.Content.Finishing.{or_abort-Wrote}

-- The content cut to a length, or padded to it with zeros.
unfoldable pub resized : Text → ℕ → Text
resized content n = take n content ++ zeros (n - length content)

-- The bytes put over the content from the offset on.
unfoldable pub spliced : Text → ℕ → Text → Text
spliced content offset bytes =
    (resized content offset ++ bytes) ++ drop (offset + length bytes) content

-- The content of the file that there is, in another generation than the new one; or there is none.
abbrev pub Old : Db → ℕ → Option RawNode → Text → Type 0
Old db g none content = content ≡ []
Old db g (some node) content =
    (old : ℕ) × (node.content_generation_id ≡ some old)
    × (node.size ≡ length content)
    × Holds db.chunks old content
    × ((old == g) ≡ false)

pub size-Old :
    (db : Db) (g : ℕ) (existing : Option RawNode) (c : Text)
    → Old db g existing c
    → size_of existing ≡ length c
size-Old db g none c e = sym (ap length e)
size-Old db g (some node) c (old, e, size, h, n) = size

pub Old-after :
    {db : Db} {g max : ℕ} {run : Returned ChunkWriter} {content : Text}
    (w : Wrote db g max run content) (existing : Option RawNode) (c : Text)
    → Old db g existing c
    → Old (record db { chunks = w.rows }) g existing c
Old-after w none c e = e
Old-after w (some node) c (old, e, size, h, n) = (old, e, size, Holds-after w old c n h, n)

pub length-resized : (c : Text) (n : ℕ) → length (resized c n) ≡ n
unfolding resized
length-resized c n = elim (Bool-cases (ltb (length c) n)) [
  | inl e ↦
      length-append (take n c) (zeros (n - length c))
      ∙ (let z = length-zeros (n - length c) in
          let all = ap length (take_all n c (ground arith)) in ground arith)
  | inr e ↦
      length-append (take n c) (zeros (n - length c))
      ∙ (let z = length-zeros (n - length c) in
          let part = length-take n c (ground arith) in ground arith)
]

module _ (g max : ℕ) where
  pub copy_old_prefix-Wrote :
      (db : Db) (existing : Option RawNode) (c : Text) (offset : ℕ)
      → has_generation db g ≡ true
      → Unused db g
      → Old db g existing c
      → offset ≤ max
      → Wrote db g max
          (copy_old_prefix
            (generation_of existing)
            (min offset (size_of existing))
            (Writer.new g max)
            db)
          (take offset c)
  unfolding copy_old_prefix
  copy_old_prefix-Wrote db none c offset has un old below =
      subst (Wrote db g max (returned (ok (Writer.new g max)) db))
        (sym (ap (take offset) old ∙ take_all offset [] (omega arith)))
        (done-Wrote db g max (Writer.new g max) [] (new-Ready db g max has un))
  copy_old_prefix-Wrote db (some node) c offset has un (old, e, size, h, n) below =
      rw (e, size)
        (subst (Wrote db g max _) (take-min offset c) (
          or_abort-Wrote (Writer.new g max).generation_id
            (copy_prefix_from old (min offset (length c)) (Writer.new g max))
            (copy_prefix_from-Wrote db g max old c (min offset (length c)) has un n h (ground arith)
              (ground arith))))

  pub fill_gap-Wrote :
      (db : Db) (w : ChunkWriter) (content : Text) (offset old_length : ℕ)
      → Ready db g max w content
      → length content + (offset - old_length) ≤ max
      → Wrote db g max (fill_gap offset old_length w db) (content ++ zeros (offset - old_length))
  unfolding fill_gap
  fill_gap-Wrote db w content offset old_length r below =
      elim (Bool-cases (ltb old_length offset)) [
        | inl e ↦ rw e (
            or_abort-Wrote w.generation_id (zero_fill (offset - old_length) w)
              (zero_fill-Wrote g max (offset - old_length) db w content r below))
        | inr e ↦ rw e (
            subst (Wrote db g max (returned (ok w) db))
              (sym (append-nil content)
                ∙ ap (λ n. content ++ zeros n) {x = 0} {y = offset - old_length} (ground arith))
              (done-Wrote db g max w content r))
      ]

  -- the old bytes behind the new ones
  pub copy_old_suffix-Wrote :
      (db : Db) (w : ChunkWriter) (content : Text) (existing : Option RawNode) (c : Text)
      → Ready db g max w content
      → Old db g existing c
      → length content ≤ max
      → length c ≤ max
      → Wrote db g max
          (copy_old_suffix true (generation_of existing) (size_of existing) w db)
          (content ++ drop (length content) c)
  unfolding copy_old_suffix
  copy_old_suffix-Wrote db w content none c r old below bound =
      rw (total_len-Filling r.filling, nothing_below (length content))
        (subst (Wrote db g max (returned (ok w) db))
          (sym (append-nil content)
            ∙ ap (λ t. content ++ t)
                (sym (ap (drop (length content)) old ∙ drop_all (length content) [] (omega arith))))
          (done-Wrote db g max w content r))
    where
      nothing_below : (n : ℕ) → ltb n 0 ≡ false
      nothing_below n = ground arith
  copy_old_suffix-Wrote db w content (some node) c r (old, e, size, h, n) below bound =
      let behind = length-drop (length content) c in
      rw (e, size, total_len-Filling r.filling)
        (elim (Bool-cases (ltb (length content) (length c))) [
          | inl less ↦ rw less (
              subst (Wrote db g max _)
                (ap (λ t. content ++ t)
                  (take_all (length c - length content) (drop (length content) c) (omega arith)))
                (or_abort-Wrote w.generation_id (copy_suffix_from old (length content) (length c) w)
                  (copy_suffix_from-Wrote g max old (length content) (length c) c db w content r n h
                    (omega arith) (ground arith))))
          | inr less ↦ rw less (
              subst (Wrote db g max (returned (ok w) db))
                (sym (append-nil content)
                  ∙ ap (λ t. content ++ t) (sym (drop_all (length content) c (ground arith))))
                (done-Wrote db g max w content r))
        ])
