-- ===== src/Content/Write.antt =====
-- The operations of crates/fslite-sqlite/src/content.rs that write a file: a new generation is
-- filled, and then the node is switched to it. A source is the list of what its stream yields.
use fslite.Common.{
  ℕ, ◌-◌, Bool, true, false, not, ◌&&◌, Option, none, some, List, [], ◌∷◌, Text, min, ltb, ◌==◌,
  if◌then◌else◌,
}
use fslite.Path.{VirtualPath}
use fslite.Fault.{
  FsResult, ok, err, not_found, wrong_node_type, revision_conflict, of_path, of_workspace,
}
use fslite.Schema.{RawNode, file_kind}
use fslite.Node.{Node, into_node}
use fslite.Sql.{Sql, gets, Host, panic, find_by}
use fslite.Resolve.{resolve}
use package.fslite.Content.{create_generation}
use package.fslite.Content.Calls.{Async, ◌>>=◌, ◌>>◌, done, call, abort, or_abort}
use package.fslite.Content.Writer
use package.fslite.Content.Writer.{
  ChunkWriter, total_len, write_bytes, copy_prefix_from, copy_suffix_from, zero_fill,
}
use package.fslite.Content.Touch.{FinalizeParams, FinalizeOutcome, applied, finalize_tx}

pub record WriteOptions : Type 0 where
  pub create : Bool
  pub expected_revision : Option ℕ

unfoldable pub fetch_max_file_bytes : ℕ → Sql (Option ℕ)
fetch_max_file_bytes ws = gets (λ db. elim (find_by (λ w. w.id == ws) db.workspaces) [
  | none ↦ none
  | some w ↦ some w.max_file_bytes
])

-- the call of `fetch_max_file_bytes`, with the `ok_or_else` behind it
unfoldable pub max_file_bytes_of : ℕ → Async ℕ
max_file_bytes_of ws = do
  max ← call (fetch_max_file_bytes ws)
  elim max [ none ↦ done (err (not_found (of_workspace ws))) | some limit ↦ done (ok limit) ]

-- the loop of `stage_source`, and the one of `write_at_impl`
unfoldable pub stage : List (FsResult Text) → ChunkWriter → Async ChunkWriter
stage [] w = done (ok w)
stage (ok bytes ∷ source) w = do
  after ← or_abort w.generation_id (write_bytes bytes w)
  stage source after
stage (err e ∷ source) w = abort w.generation_id >> done (err e)

unfoldable pub stage_source : ℕ → ℕ → List (FsResult Text) → Async (ℕ × ℕ)
stage_source generation max source = do
  w ← stage source (Writer.new generation max)
  Writer.finish w

unfoldable pub resolve_existing_file : ℕ → VirtualPath → Async (Option RawNode)
resolve_existing_file ws path = do
  raw ← call (gets (λ db. resolve db ws path))
  elim raw [
    | none ↦ done (ok none)
    | some node ↦
        if node.kind == file_kind
        then done (ok (some node))
        else done (err (wrong_node_type (of_path path)))
  ]

abbrev pub size_of : Option RawNode → ℕ
size_of none = 0
size_of (some node) = node.size

abbrev pub generation_of : Option RawNode → Option ℕ
generation_of none = none
generation_of (some node) = node.content_generation_id

unfoldable pub copy_old_prefix : Option ℕ → ℕ → ChunkWriter → Async ChunkWriter
copy_old_prefix none prefix_end w = done (ok w)
copy_old_prefix (some old) prefix_end w =
    or_abort w.generation_id (copy_prefix_from old prefix_end w)

unfoldable pub fill_gap : ℕ → ℕ → ChunkWriter → Async ChunkWriter
fill_gap offset old_length w =
    if ltb old_length offset
    then or_abort w.generation_id (zero_fill (offset - old_length) w)
    else done (ok w)

unfoldable pub write_new : Option (List (FsResult Text)) → ChunkWriter → Async ChunkWriter
write_new none w = done (ok w)
write_new (some source) w = stage source w

-- none in place of the old generation is the `expect`
unfoldable pub copy_old_suffix : Bool → Option ℕ → ℕ → ChunkWriter → Async ChunkWriter
copy_old_suffix preserve old old_length w =
    if preserve && ltb (total_len w) old_length
    then (elim old [
      | none ↦ λ db. panic
      | some g ↦ or_abort w.generation_id (copy_suffix_from g (total_len w) old_length w)
    ])
    else done (ok w)

-- what the new generation is filled with
unfoldable pub fill :
    Option RawNode → ℕ → Option (List (FsResult Text)) → Bool → ChunkWriter → Async ChunkWriter
fill existing offset source preserve w = do
  kept ← copy_old_prefix (generation_of existing) (min offset (size_of existing)) w
  padded ← fill_gap offset (size_of existing) kept
  written ← write_new source padded
  copy_old_suffix preserve (generation_of existing) (size_of existing) written

module _ (host : Host) (ws : ℕ) (path : VirtualPath) (actor : Text) where
  -- the match on the outcome of the transaction of `finalize`
  unfoldable pub finalize_outcome : ℕ → FinalizeOutcome → Async Node
  finalize_outcome generation (applied row) = done (into_node row)
  finalize_outcome generation FinalizeOutcome.missing =
      abort generation >> done (err (not_found (of_path path)))
  finalize_outcome generation FinalizeOutcome.wrong_kind =
      abort generation >> done (err (wrong_node_type (of_path path)))
  finalize_outcome generation FinalizeOutcome.conflict =
      abort generation >> done (err (revision_conflict (of_path path)))

  unfoldable pub finalize : ℕ → ℕ → FinalizeParams → Async Node
  finalize generation length params = do
    outcome ← or_abort generation (call (finalize_tx host ws path actor params generation length))
    finalize_outcome generation outcome

  unfoldable pub write : List (FsResult Text) → WriteOptions → Async Node
  write source options = do
    max ← max_file_bytes_of ws
    generation ← call (create_generation host ws)
    staged ← stage_source generation max source
    finalize staged.0 staged.1
        (record { allow_create = options.create; expected_revision = options.expected_revision })

  unfoldable pub write_at_existing :
      Option RawNode → ℕ → Option (List (FsResult Text)) → Bool → Option ℕ → Bool → Async Node
  write_at_existing existing offset source create expected preserve = do
    max ← max_file_bytes_of ws
    generation ← call (create_generation host ws)
    w ← fill existing offset source preserve (Writer.new generation max)
    staged ← Writer.finish w
    finalize staged.0 staged.1 (record { allow_create = create; expected_revision = expected })

  unfoldable pub write_at_impl :
      ℕ → Option (List (FsResult Text)) → Bool → Option ℕ → Bool → Async Node
  write_at_impl offset source create expected preserve = do
    existing ← resolve_existing_file ws path
    elim existing [
      | none ↦
          if not create
          then done (err (not_found (of_path path)))
          else write_at_existing none offset source create expected preserve
      | some node ↦ write_at_existing (some node) offset source create expected preserve
    ]

  unfoldable pub write_at : ℕ → List (FsResult Text) → WriteOptions → Async Node
  write_at offset source options =
      write_at_impl offset (some source) options.create options.expected_revision true

  unfoldable pub append : List (FsResult Text) → WriteOptions → Async Node
  append source options = do
    existing ← resolve_existing_file ws path
    write_at_impl (size_of existing) (some source) options.create options.expected_revision true

  unfoldable pub truncate : ℕ → Option ℕ → Async Node
  truncate length expected = write_at_impl length none false expected false
