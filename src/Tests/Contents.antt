-- ===== src/Tests/Contents.antt =====
-- The theorems on file contents, at the sample with a file of three bytes.
use mathlib.Core.List.{map}
use fslite.Common.{
  ℕ, zero, suc, ◌*◌, ◌≡◌, refl, sym, ap, ◌∙◌, ◌==◌, false, true, some, List, [], ◌∷◌, Text, codes,
  take, drop_all, concat, segment, arith,
}
use fslite.Schema.{RawNode, WorkspaceRow, Db}
use fslite.Fault
use fslite.Sql.{returned, find_by, has_generation, any_by}
use fslite.Purge.{is_referenced}
use fslite.Path.{segments, split, is_empty}
use fslite.Resolve.{resolve, walk, fetch_root, fetch_active, fetch_child, descend}
use fslite.Content.Chunks.{chunk_size, chunk_bytes}
use fslite.Content.Write.{stage_source}
use fslite.Content.Read.{read}
use fslite.Content.Write.{WriteOptions, write, write_at, append, truncate}
use fslite.Content.Roundtrip.{write-read, write_at-read, append-read, truncate-read}
use fslite.Content.Finalized.{Rewrote}
use fslite.Feed.{FeedIsDense}
use fslite.Content.Stored.{Holds, chunk_bytes-none}
use fslite.Content.Finishing.{Finished, stage_source-Finished}
use fslite.Content.Aborting.{Aborted, stage_source-Aborted}
use fslite.Content.Splice.{spliced, resized}
use fslite.Content.Reading.{Shows, read-Yields}
use fslite.Range.{Resolved}
use fslite.Range.Bounds.{Within, resolve_range-Within, resolve_range-read}
use fslite.Range
use package.fslite.Tests.{
  sample_host, sample_db-FeedIsDense, active, sample_db, sample_root, docs_row, loop_row, file_row,
  path_of,
}

abbrev pub written_row : RawNode
written_row = record file_row { size = 3; content_generation_id = some 5 }

-- the generation 5 has the file's bytes, and 9 is new
abbrev pub written_db : Db
written_db = record sample_db {
  nodes = active sample_root ∷ active docs_row ∷ active loop_row ∷ active written_row ∷ [];
  generations =
      (record { id = 5; workspace_id = 1; complete = true; length = 3 })
      ∷ (record { id = 9; workspace_id = 1; complete = false; length = 0 })
      ∷ [];
  chunks = (record { generation_id = 5; chunk_index = 0; bytes = codes "abc" }) ∷ [];
}

pub written_db-Holds : Holds written_db.chunks 5 (codes "abc")
unfolding chunk_bytes find_by any_by
written_db-Holds zero = refl
written_db-Holds (suc i) =
    chunk_bytes-none written_db.chunks 5 (suc i) (rw (other i) refl)
    ∙ sym (ap (take chunk_size) (drop_all (suc i * chunk_size) (codes "abc") (omega arith)))
  where
    other : (i : ℕ) → (0 == suc i) ≡ false
    other i = ground arith

written_row-Shows : Shows written_db written_row (codes "abc")
written_row-Shows = record {
  generation = 5;
  is_file = refl;
  has_revision = refl;
  has_generation = refl;
  has_size = refl;
  holds = written_db-Holds;
}

stage_source-Finished_example :
    Finished written_db 9
      (stage_source 9 64 (map Fault.ok (codes "ab" ∷ codes "c" ∷ [])) written_db)
      (codes "abc")
unfolding has_generation any_by
stage_source-Finished_example =
    stage_source-Finished written_db 9 64 (codes "ab" ∷ codes "c" ∷ []) refl refl (omega arith)

stage_source-Aborted_example :
    Aborted written_db 9 2
      (stage_source 9 2 (map Fault.ok (codes "ab" ∷ codes "c" ∷ [])) written_db)
unfolding has_generation any_by is_referenced
stage_source-Aborted_example =
    stage_source-Aborted written_db 9 2 (codes "ab" ∷ codes "c" ∷ []) refl refl refl (omega arith)

-- the middle byte is overwritten
spliced_abc : spliced (codes "abc") 1 (codes "x") ≡ codes "axc"
unfolding spliced resized
spliced_abc = refl

read-Yields_example :
    (chunks : List Text) × (read 1
        (path_of (codes "/docs/a"))
        (some (record { start = 1; end = 7 }))
        written_db
      ≡ returned
          (Fault.ok (record {
            logical_length = 3;
            revision = 1;
            range = record { start = 1; end = 3 };
            stream = chunks;
          }))
          written_db)
    × (concat chunks ≡ segment (codes "abc") 1 3)
unfolding resolve walk segments split is_empty fetch_root fetch_active fetch_child find_by descend
read-Yields_example =
    read-Yields written_db (path_of (codes "/docs/a")) written_row (codes "abc")
      (some (record { start = 1; end = 7 })) 1 refl written_row-Shows (omega arith)

resolve_range-Within_example : Within 3 (Range.resolve_range (codes "bytes=1-7") 3)
resolve_range-Within_example = resolve_range-Within (codes "bytes=1-7") 3 (omega arith)

resolve_range-read_example :
    (chunks : List Text) × (read 1
        (path_of (codes "/docs/a"))
        (some (record { start = 1; end = 3 }))
        written_db
      ≡ returned
          (Fault.ok (record {
            logical_length = 3;
            revision = 1;
            range = record { start = 1; end = 3 };
            stream = chunks;
          }))
          written_db)
    × (concat chunks ≡ segment (codes "abc") 1 3)
unfolding resolve walk segments split is_empty fetch_root fetch_active fetch_child find_by descend
    Range.resolve_range Range.split_range Range.range_from Range.range_to Range.parse_u64
    Range.parse_digits Range.saturating_suc
resolve_range-read_example =
    resolve_range-read written_db 1 (path_of (codes "/docs/a")) written_row (codes "abc")
      (codes "bytes=1-7") (record { start = 1; end = 3 }) refl written_row-Shows (omega arith) refl

abbrev overwrite : WriteOptions
overwrite = record { create = false; expected_revision = some 1 }

abbrev sample_workspace : WorkspaceRow
sample_workspace = record { id = 1; updated_at_ms = 0; max_file_bytes = 64; change_seq = 2 }

write-read_example : Rewrote 1 (path_of (codes "/docs/a")) written_row (codes "xyz") (
    write sample_host 1
      (path_of (codes "/docs/a"))
      []
      (map Fault.ok (codes "xy" ∷ codes "z" ∷ []))
      overwrite
      written_db)
unfolding resolve walk segments split is_empty fetch_root fetch_active fetch_child find_by descend
    any_by FeedIsDense
write-read_example =
    write-read sample_host 1 (path_of (codes "/docs/a")) [] written_db sample_workspace written_row
      5 overwrite sample_db-FeedIsDense refl refl refl refl refl refl refl refl refl refl
      (codes "xy" ∷ codes "z" ∷ []) (omega arith)

write_at-read_example :
    Rewrote 1 (path_of (codes "/docs/a")) written_row (spliced (codes "abc") 1 (codes "x")) (
      write_at sample_host 1
        (path_of (codes "/docs/a"))
        []
        1
        (map Fault.ok (codes "x" ∷ []))
        overwrite
        written_db)
unfolding resolve walk segments split is_empty fetch_root fetch_active fetch_child find_by descend
    any_by FeedIsDense
write_at-read_example =
    write_at-read sample_host 1 (path_of (codes "/docs/a")) [] written_db sample_workspace
      written_row 5 overwrite sample_db-FeedIsDense refl refl refl refl refl refl refl refl refl
      refl (codes "abc") refl written_db-Holds 1 (codes "x" ∷ []) (omega arith) (omega arith)

append-read_example : Rewrote 1 (path_of (codes "/docs/a")) written_row (codes "abcx") (
    append sample_host 1
      (path_of (codes "/docs/a"))
      []
      (map Fault.ok (codes "x" ∷ []))
      overwrite
      written_db)
unfolding resolve walk segments split is_empty fetch_root fetch_active fetch_child find_by descend
    any_by FeedIsDense
append-read_example =
    append-read sample_host 1 (path_of (codes "/docs/a")) [] written_db sample_workspace written_row
      5 overwrite sample_db-FeedIsDense refl refl refl refl refl refl refl refl refl refl
      (codes "abc") refl written_db-Holds (codes "x" ∷ []) (omega arith)

truncate-read_example :
    Rewrote 1
      (path_of (codes "/docs/a"))
      written_row
      (resized (codes "abc") 2)
      (truncate sample_host 1 (path_of (codes "/docs/a")) [] 2 (some 1) written_db)
unfolding resolve walk segments split is_empty fetch_root fetch_active fetch_child find_by descend
    any_by FeedIsDense
truncate-read_example =
    truncate-read sample_host 1 (path_of (codes "/docs/a")) [] written_db sample_workspace
      written_row 5 overwrite sample_db-FeedIsDense refl refl refl refl refl refl refl refl refl
      refl (codes "abc") refl written_db-Holds 2 (omega arith)
