-- ===== src/Content.antt =====
-- Content generations of crates/fslite-sqlite/src/content.rs, as far as the operations on the
-- namespace use them.
pub mod Stored
pub mod Filling
pub mod Reading
pub mod Copying
pub mod Ranges
pub mod Finishing
pub mod Aborting
pub mod Splice
pub mod Rewriting
pub mod Switched
pub mod Written
pub mod Finalized
pub mod Roundtrip
pub mod Loop
pub mod Slicing
pub mod Calls
pub mod Chunks
pub mod Writer
pub mod Write
pub mod Read
pub mod Touch
use mathlib.Core.List.{map}
use fslite.Common.{
  ℕ, Bool, true, false, not, ◌&&◌, Option, List, [], ◌∷◌, ◌++◌, ◌==◌, if◌then◌else◌,
}
use fslite.Schema.{GenerationRow, ChunkRow, Db}
use fslite.Sql.{
  constraint_violation, Ran, done, failed, Sql, ◌>>=◌, ◌>>◌, pure, Host, new_id, now_ms, any_by,
  keep_by,
}

unfoldable pub insert_generation : GenerationRow → Sql (Unit {0})
insert_generation g db =
    if not (any_by (λ x. x.id == g.id) db.generations)
      && any_by (λ w. w.id == g.workspace_id) db.workspaces
    then done tt (record db { generations = db.generations ++ g ∷ [] })
    else failed constraint_violation db.ticks

-- `create_generation`. The time of creation is a column that nothing reads.
unfoldable pub create_generation : Host → ℕ → Sql ℕ
unfolding insert_generation
create_generation host ws = do
  id ← new_id host
  now ← now_ms host
  insert_generation (record { id = id; workspace_id = ws; complete = false; length = 0 })
  pure id

pub complete_where : ℕ → ℕ → List GenerationRow → List GenerationRow
complete_where id length [] = []
complete_where id length (g ∷ rows) =
    (if g.id == id then record g { complete = true; length = length } else g)
    ∷ complete_where id length rows

unfoldable pub finalize_generation : ℕ → ℕ → Sql (Unit {0})
unfolding complete_where
finalize_generation id length db =
    done tt (record db { generations = complete_where id length db.generations })

copied_chunks : ℕ → ℕ → List ChunkRow → List ChunkRow
copied_chunks new old [] = []
copied_chunks new old (c ∷ rows) =
    let rest = copied_chunks new old rows in
    if c.generation_id == old then record c { generation_id = new } ∷ rest else rest

-- INSERT INTO content_chunks … SELECT …, into a generation that has none
unfoldable pub copy_chunks : ℕ → ℕ → Sql (Unit {0})
unfolding copied_chunks
copy_chunks new old db =
    if any_by (λ c. c.generation_id == new) db.chunks
    then failed constraint_violation db.ticks
    else done tt (record db { chunks = db.chunks ++ copied_chunks new old db.chunks })
