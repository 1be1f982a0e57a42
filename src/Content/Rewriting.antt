-- ===== src/Content/Rewriting.antt =====
-- The new generation of `write_at_impl` of crates/fslite-sqlite/src/content.rs, as a whole.
use mathlib.Core.List.{map}
use fslite.Common.{
  ℕ, ◌+◌, ◌-◌, ◌≤◌, ◌≡◌, ap, subst, true, false, Option, none, some, List, ◌++◌, Text, length, take,
  drop, min, concat, length-append, arith,
}
use fslite.Fault.{ok}
use fslite.Schema.{RawNode, Db}
use fslite.Sql.{Returned, has_generation}
use package.fslite.Content.Calls.{awaited}
use package.fslite.Content.Writer
use package.fslite.Content.Writer.{ChunkWriter}
use package.fslite.Content.Write.{
  generation_of, size_of, copy_old_prefix, fill_gap, write_new, copy_old_suffix, fill,
}
use package.fslite.Content.Filling.{Wrote}
use package.fslite.Content.Loop.{Ready, Wrote-then, Wrote-Ready, done-Wrote}
use package.fslite.Content.Copying.{Unused}
use package.fslite.Content.Ranges.{zeros, length-zeros}
use package.fslite.Content.Finishing.{Finished, Wrote-finish, stage-Wrote}
use package.fslite.Content.Splice.{
  Old, size-Old, Old-after, resized, spliced, length-resized, copy_old_prefix-Wrote, fill_gap-Wrote,
  copy_old_suffix-Wrote,
}

module _ (db : Db) (g max : ℕ) (existing : Option RawNode) (c : Text) (offset : ℕ) where
  -- the old bytes before the offset, and zeros up to it
  padded-Wrote :
      (next : ChunkWriter → Db → Returned ChunkWriter)
      → has_generation db g ≡ true
      → Unused db g
      → Old db g existing c
      → offset ≤ max
      → (content : Text)
      → ((db' : Db) (w : ChunkWriter)
          → Old db' g existing c
          → Ready db' g max w (resized c offset)
          → Wrote db' g max (next w db') content)
      → Wrote db g max
          (awaited
            (copy_old_prefix
              (generation_of existing)
              (min offset (size_of existing))
              (Writer.new g max)
              db)
            (λ kept db'. awaited (fill_gap offset (size_of existing) kept db') next))
          content
  unfolding resized
  padded-Wrote next has un old below content more =
      let size = size-Old db g existing c old in
      let sum = length-resized c offset in
      let longer = length-append (take offset c) (zeros (offset - length c)) in
      let zeros_size = length-zeros (offset - length c) in
      let k = copy_old_prefix-Wrote g max db existing c offset has un old below in
      let r = Wrote-Ready has k in
      let p =
        subst
          (Wrote (record db { chunks = k.rows }) g max
            (fill_gap offset (size_of existing) k.after (record db { chunks = k.rows })))
          (ap (λ n. take offset c ++ zeros (offset - n)) size)
          (fill_gap-Wrote g max (record db { chunks = k.rows }) k.after (take offset c) offset
            (size_of existing) r (omega arith)) in
      Wrote-then (λ kept db'. awaited (fill_gap offset (size_of existing) kept db') next) k
        (Wrote-then next p (
          more (record db { chunks = p.rows }) p.after
            (Old-after p existing c (Old-after k existing c old)) (Wrote-Ready r.exists p)))

  -- `write_at` and `append`: the bytes go over the old content, which goes on behind them.
  fill-Wrote :
      (pieces : List Text)
      → has_generation db g ≡ true
      → Unused db g
      → Old db g existing c
      → length c ≤ max
      → offset + length (concat pieces) ≤ max
      → Wrote db g max
          (fill existing offset (some (map ok pieces)) true (Writer.new g max) db)
          (spliced c offset (concat pieces))
  unfolding fill spliced write_new
  fill-Wrote pieces has un old bound below =
      padded-Wrote
        (λ padded db'.
          awaited (write_new (some (map ok pieces)) padded db')
            (copy_old_suffix true (generation_of existing) (size_of existing)))
        has un old (omega arith) (spliced c offset (concat pieces))
        (λ db' w older r.
          let sum = length-resized c offset in
          let longer = length-append (resized c offset) (concat pieces) in
          let s = stage-Wrote g max pieces db' w (resized c offset) r (omega arith) in
          Wrote-then (copy_old_suffix true (generation_of existing) (size_of existing)) s (
            subst (Wrote (record db' { chunks = s.rows }) g max _)
              (ap (λ n. (resized c offset ++ concat pieces) ++ drop n c)
                {x = length (resized c offset ++ concat pieces)}
                {y = offset + length (concat pieces)} (omega arith))
              (copy_old_suffix-Wrote g max (record db' { chunks = s.rows }) s.after
                (resized c offset ++ concat pieces) existing c (Wrote-Ready r.exists s)
                (Old-after s existing c older) (omega arith) bound)))

  -- `truncate`: the old bytes up to the length, or zeros up to it
  resize-Wrote :
      has_generation db g ≡ true
      → Unused db g
      → Old db g existing c
      → offset ≤ max
      → Wrote db g max (fill existing offset none false (Writer.new g max) db) (resized c offset)
  unfolding fill write_new copy_old_suffix
  resize-Wrote has un old below =
      padded-Wrote
        (λ padded db'.
          awaited (write_new none padded db')
            (copy_old_suffix false (generation_of existing) (size_of existing)))
        has un old below (resized c offset)
        (λ db' w older r. done-Wrote db' g max w (resized c offset) r)

  -- Filling with a source, up to the quota, ends with a new generation that holds the old content
  -- with the new bytes over it from the offset on, zeros in a gap, and the old rest behind.
  pub fill-spliced :
      (pieces : List Text)
      → has_generation db g ≡ true
      → Unused db g
      → Old db g existing c
      → length c ≤ max
      → offset + length (concat pieces) ≤ max
      → Finished db g
          (awaited
            (fill existing offset (some (map ok pieces)) true (Writer.new g max) db)
            Writer.finish)
          (spliced c offset (concat pieces))
  fill-spliced pieces has un old bound below =
      Wrote-finish has (fill-Wrote pieces has un old bound below)

  -- Filling without a source, up to the quota, ends with a new generation that holds the old content
  -- cut to the offset, or padded to it with zeros.
  pub fill-resized :
      has_generation db g ≡ true
      → Unused db g
      → Old db g existing c
      → offset ≤ max
      → Finished db g
          (awaited (fill existing offset none false (Writer.new g max) db) Writer.finish)
          (resized c offset)
  fill-resized has un old below = Wrote-finish has (resize-Wrote has un old below)
