-- ===== src/Content/Roundtrip.antt =====
-- `write`, `write_at`, `append` and `truncate` of crates/fslite-sqlite/src/content.rs on a file that
-- exists, and `read` behind them.
use mathlib.Core.List.{map}
use fslite.Common.{
  ℕ, ◌+◌, ◌≤◌, ◌≡◌, refl, sym, ap, subst, ◌∙◌, Bool, true, false, Option, none, some, List, ◌++◌,
  Text, length, concat, take, drop, ◌-◌, append-nil, take_all, drop_all, ◌==◌, arith,
}
use fslite.Path.{VirtualPath}
use fslite.Fault.{FsResult, ok, err}
use fslite.Schema.{RawNode, WorkspaceRow, GenerationRow, Db, file_kind}
use fslite.Node.{Node}
use fslite.Sql.{Host, Returned, returned, never, panic, find_by, any_by, has_generation}
use fslite.Feed.{FeedIsDense}
use fslite.Resolve.{resolve}
use fslite.Mutate.{conflicts}
use package.fslite.Content.Calls.{Async, ◌>>=◌, awaited}
use package.fslite.Content.Touch.{FinalizeParams}
use package.fslite.Content.Writer
use package.fslite.Content.Write.{
  WriteOptions, stage_source, fill, finalize, write, write_at_existing, write_at_impl, write_at,
  append, truncate, size_of,
}
use package.fslite.Content.Copying.{Unused}
use package.fslite.Content.Stored.{Holds}
use package.fslite.Content.Splice.{resized, spliced}
use package.fslite.Content.Ranges.{zeros}
use package.fslite.Content.Rewriting.{fill-spliced, fill-resized}
use package.fslite.Content.Finishing.{Finished, stage_source-Finished}
use package.fslite.Content.Finalized.{
  OnlyAt, finalize-Rewrote, new_generation, started_db, any_by-last, resolve_existing_file-done,
  Rewrote, replaced,
}

awaited_assoc :
    {A B C : Type 0} (r : Returned A) (f : A → Async B) (k : B → Async C)
    → awaited r (λ a. f a >>= k) ≡ awaited (awaited r f) k
awaited_assoc (returned (ok a) db) f k = refl
awaited_assoc (returned (err e) db) f k = refl
awaited_assoc never f k = refl
awaited_assoc panic f k = refl

-- bytes put behind the end
spliced-end : (c bytes : Text) → spliced c (length c) bytes ≡ c ++ bytes
unfolding spliced resized
spliced-end c bytes =
    ap (λ n. ((take (length c) c ++ zeros n) ++ bytes) ++ drop (length c + length bytes) c)
      {x = length c - length c} {y = 0} (omega arith)
    ∙ ap (λ t. (t ++ bytes) ++ drop (length c + length bytes) c)
        (append-nil (take (length c) c) ∙ take_all (length c) c (omega arith))
    ∙ ap (λ t. (c ++ bytes) ++ t) (drop_all (length c + length bytes) c (omega arith))
    ∙ append-nil (c ++ bytes)

module _ (host : Host) (ws : ℕ) (path : VirtualPath) (actor : Text) (db : Db) (w : WorkspaceRow)
    (node : RawNode) (old : ℕ) (options : WriteOptions) (dense : FeedIsDense db)
    (max : find_by (λ w. w.id == ws) db.workspaces ≡ some w)
    (exists : any_by (λ w. w.id == ws) db.workspaces ≡ true)
    (found : resolve db ws path ≡ some node) (is_file : (node.kind == file_kind) ≡ true)
    (agrees : conflicts options.expected_revision node ≡ false)
    (e : node.content_generation_id ≡ some old) (only : OnlyAt node.id old db.nodes)
    (fresh : any_by (λ x. x.id == new_generation host ws db) db.generations ≡ false)
    (unused : Unused db (new_generation host ws db))
    (other : (old == new_generation host ws db) ≡ false) where
  abbrev new_row : GenerationRow
  new_row = record {
    id = new_generation host ws db;
    workspace_id = ws;
    complete = false;
    length = 0;
  }

  abbrev params_of : Bool → FinalizeParams
  params_of create = record { allow_create = create; expected_revision = options.expected_revision }

  abbrev ending : Bool → ℕ × ℕ → Async Node
  ending create staged = finalize host ws path actor staged.0 staged.1 (params_of create)

  -- a run that fills the new generation, between what comes before and behind it
  filled-Rewrote :
      (create : Bool) (fill : ℕ → ℕ → Async (ℕ × ℕ)) (content : Text)
      → Finished
          (started_db host ws db)
          (new_generation host ws db)
          (fill w.max_file_bytes (new_generation host ws db) (started_db host ws db))
          content
      → Rewrote ws path node content (
          awaited
            (fill w.max_file_bytes (new_generation host ws db) (started_db host ws db))
            (ending create))
  filled-Rewrote create fill content s =
      finalize-Rewrote host ws path actor db w node old (params_of create) dense max exists found
        is_file agrees e only fresh other _ content s

  -- Writing a file that there is, whose generation no other row has, up to the quota and at the
  -- expected revision, returns its node with the next revision and the new size, and reading the
  -- whole file behind it gives the bytes written.
  pub write-read :
      (pieces : List Text)
      → length (concat pieces) ≤ w.max_file_bytes
      → Rewrote ws path node (concat pieces) (write host ws path actor (map ok pieces) options db)
  unfolding write has_generation
  write-read pieces below =
      replaced host ws path actor db w node old (params_of options.create) dense max exists found
        is_file agrees e only fresh other
        (λ m g. stage_source g m (map ok pieces) >>= ending options.create) (concat pieces)
        (filled-Rewrote options.create (λ m g. stage_source g m (map ok pieces)) (concat pieces)
          (stage_source-Finished (started_db host ws db) (new_generation host ws db)
            w.max_file_bytes pieces (any_by-last db.generations new_row) unused below))

  write_at_impl-Rewrote :
      (offset : ℕ) (source : Option (List (FsResult Text))) (create preserve : Bool)
      → (content : Text)
      → Finished
          (started_db host ws db)
          (new_generation host ws db)
          (awaited
            (fill
              (some node)
              offset
              source
              preserve
              (Writer.new (new_generation host ws db) w.max_file_bytes)
              (started_db host ws db))
            Writer.finish)
          content
      → Rewrote ws path node content (
          write_at_impl host ws path actor offset source create options.expected_revision preserve
            db)
  unfolding write_at_impl write_at_existing
  write_at_impl-Rewrote offset source create preserve content s =
      rw (write_at_impl, resolve_existing_file-done ws path db node found is_file)
        (replaced host ws path actor db w node old (params_of create) dense max exists found is_file
          agrees e only fresh other
          (λ m g.
            fill (some node) offset source preserve (Writer.new g m)
            >>= (λ k. Writer.finish k >>= ending create))
          content
          (subst (Rewrote ws path node content)
            (sym (awaited_assoc _ Writer.finish (ending create)))
            (filled-Rewrote create
              (λ m g. fill (some node) offset source preserve (Writer.new g m) >>= Writer.finish)
              content s)))

  module _ (c : Text) (size : node.size ≡ length c) (holds : Holds db.chunks old c) where
    -- Writing at an offset into a file that there is, whose generation no other row has, up to the
    -- quota and at the expected revision, returns its node with the next revision and the new size,
    -- and reading the whole file behind it gives the old content with the new bytes over it from
    -- the offset on, zeros in a gap, and the old rest behind.
    pub write_at-read :
        (offset : ℕ) (pieces : List Text)
        → length c ≤ w.max_file_bytes
        → offset + length (concat pieces) ≤ w.max_file_bytes
        → Rewrote ws path node
            (spliced c offset (concat pieces))
            (write_at host ws path actor offset (map ok pieces) options db)
    unfolding write_at has_generation
    write_at-read offset pieces bound below =
        write_at_impl-Rewrote offset (some (map ok pieces)) options.create true
          (spliced c offset (concat pieces))
          (fill-spliced (started_db host ws db) (new_generation host ws db) w.max_file_bytes
            (some node) c offset pieces (any_by-last db.generations new_row) unused
            (old, e, size, holds, other) bound below)

    -- Appending to a file that there is, whose generation no other row has, up to the quota and at
    -- the expected revision, returns its node with the next revision and the new size, and reading
    -- the whole file behind it gives the old content with the new bytes behind it.
    pub append-read :
        (pieces : List Text)
        → length c + length (concat pieces) ≤ w.max_file_bytes
        → Rewrote ws path node
            (c ++ concat pieces)
            (append host ws path actor (map ok pieces) options db)
    unfolding append has_generation write_at
    append-read pieces below =
        subst
          (λ content.
            Rewrote ws path node content (append host ws path actor (map ok pieces) options db))
          (spliced-end c (concat pieces))
          (subst (Rewrote ws path node (spliced c (length c) (concat pieces)))
            (sym (
              ap (λ r. awaited r (λ existing. at (size_of existing)))
                (resolve_existing_file-done ws path db node found is_file)
              ∙ ap (λ n. at n db) size))
            (write_at-read (length c) pieces (omega arith) below))
      where
        at : ℕ → Async Node
        at n =
            write_at_impl host ws path actor n (some (map ok pieces)) options.create
              options.expected_revision true

    -- Truncating a file that there is, whose generation no other row has, to a length up to the
    -- quota and at the expected revision, returns its node with the next revision and the new size,
    -- and reading the whole file behind it gives the old content cut to the length, or padded to it
    -- with zeros.
    pub truncate-read :
        (n : ℕ)
        → n ≤ w.max_file_bytes
        → Rewrote ws path node
            (resized c n)
            (truncate host ws path actor n options.expected_revision db)
    unfolding truncate has_generation
    truncate-read n below = write_at_impl-Rewrote n none false false (resized c n) (
        fill-resized (started_db host ws db) (new_generation host ws db) w.max_file_bytes
          (some node) c n (any_by-last db.generations new_row) unused (old, e, size, holds, other)
          below)
