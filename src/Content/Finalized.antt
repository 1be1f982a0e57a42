-- ===== src/Content/Finalized.antt =====
-- `finalize` of crates/fslite-sqlite/src/content.rs on a file that exists, and what comes before and
-- behind it in every operation that writes a file.
use fslite.Common.{
  ℕ, ◌+◌, ◌≡◌, refl, sym, ap, subst, ◌∙◌, Bool, true, false, not, ◌&&◌, none, some, List, [], ◌∷◌,
  ◌++◌, Text, length, ◌==◌, ==_refl, if◌then◌else◌, or-eq-false, inl, inr, Bool-cases, arith,
}
use fslite.Path.{VirtualPath}
use fslite.Fault.{ok}
use fslite.Schema.{RawNode, NodeRow, WorkspaceRow, GenerationRow, Db, file_kind}
use fslite.Node.{Node, file, into_node, with_kind, kind_of_code, revision_new}
use fslite.Sql.{
  Host, Returned, returned, find_by, any_by, keep_by, set_where, new_id, now_ms, transact,
  has_generation, is_just,
}
use fslite.Sql
use fslite.Purge.{is_referenced}
use fslite.Feed.{FeedIsDense}
use fslite.Resolve.{resolve}
use fslite.Mutate.{conflicts}
use package.fslite.Content.{create_generation, insert_generation}
use package.fslite.Content.Calls.{Async, ◌>>=◌, or_abort, awaited, call}
use package.fslite.Content.Touch.{
  FinalizeParams, FinalizeOutcome, applied, finalize_tx, finalize_existing, finalize_update,
}
use package.fslite.Content.Write.{
  fetch_max_file_bytes, max_file_bytes_of, resolve_existing_file, finalize, finalize_outcome,
}
use package.fslite.Content.Read.{read}
use package.fslite.Content.Stored.{chunk_bytes-keep_by}
use package.fslite.Content.Finishing.{Finished}
use package.fslite.Content.Reading.{Shows, Yields, read-Yields}
use package.fslite.Content.Switched.{switched_node, switch_row, resolve-same, resolve-nodes}
use package.fslite.Content.Written.{applied_row, written_db, finalize_update-done}

-- no row but that one has the generation
abbrev pub OnlyAt : ℕ → ℕ → List NodeRow → Type 0
OnlyAt i old rows =
    any_by (λ r. not (r.node.id == i) && is_just r.node.content_generation_id old) rows ≡ false

second : (a b : Bool) → a ≡ false → (not a && b) ≡ false → b ≡ false
second a b h k = ground arith

any_by-set_where :
    (rows : List NodeRow) (i old generation length revision now : ℕ)
    → (generation == old) ≡ false
    → OnlyAt i old rows
    → any_by
        (λ r. is_just r.node.content_generation_id old)
        (set_where i (switch_row i (switched_node generation length revision now)) rows)
      ≡ false
unfolding any_by set_where
any_by-set_where [] i old generation length revision now other only = refl
any_by-set_where (r ∷ rows) i old generation length revision now other only =
    let (here, behind) =
      or-eq-false (not (r.node.id == i) && is_just r.node.content_generation_id old)
        (any_by (λ r. not (r.node.id == i) && is_just r.node.content_generation_id old) rows)
        only in
    let rest = any_by-set_where rows i old generation length revision now other behind in
    elim (Bool-cases (r.node.id == i)) [
      | inl e ↦ rw (set_where, e) (rw (other, rest) refl)
      | inr e ↦ rw (set_where, e) (rw (plain r e here, rest) refl)
    ]
  where
    plain :
        (r : NodeRow)
        → (r.node.id == i) ≡ false
        → (not (r.node.id == i) && is_just r.node.content_generation_id old) ≡ false
        → is_just r.node.content_generation_id old ≡ false
    plain r e h = second (r.node.id == i) (is_just r.node.content_generation_id old) e h

pub any_by-last :
    (rows : List GenerationRow) (g : GenerationRow)
    → any_by (λ x. x.id == g.id) (rows ++ g ∷ []) ≡ true
unfolding any_by
any_by-last [] g = rw (==_refl g.id) refl
any_by-last (r ∷ rows) g = rw (any_by-last rows g) (ground arith)

positive : (n : ℕ) → (n + 1 == 0) ≡ false
positive n = ground arith

swapped : (a b : ℕ) → (a == b) ≡ false → (b == a) ≡ false
swapped a b h = ground arith

module _ (host : Host) (ws : ℕ) where
  abbrev pub new_generation : Db → ℕ
  new_generation db = host.uuid db.ticks

  abbrev pub started_db : Db → Db
  started_db db = record db {
    generations =
        db.generations
        ++ (record { id = new_generation db; workspace_id = ws; complete = false; length = 0 })
          ∷ [];
    ticks = db.ticks + 1 + 1;
  }

  create_generation-done :
      (db : Db)
      → any_by (λ x. x.id == new_generation db) db.generations ≡ false
      → any_by (λ w. w.id == ws) db.workspaces ≡ true
      → transact (create_generation host ws) db ≡ returned (ok (new_generation db)) (started_db db)
  unfolding transact create_generation new_id now_ms insert_generation
  create_generation-done db fresh exists =
      rw (transact, create_generation, insert_generation, fresh, exists) refl

module _ (ws : ℕ) where
  max_file_bytes_of-done :
      (db : Db) (w : WorkspaceRow)
      → find_by (λ w. w.id == ws) db.workspaces ≡ some w
      → max_file_bytes_of ws db ≡ returned (ok w.max_file_bytes) db
  unfolding max_file_bytes_of fetch_max_file_bytes transact
  max_file_bytes_of-done db w e = rw (max_file_bytes_of, fetch_max_file_bytes, transact, e) refl

  -- the new file's row is one that a node is made of
  abbrev written_node : ℕ → ℕ → RawNode → Node
  written_node length now node = record {
    workspace_id = ws;
    id = node.id;
    parent_id = node.parent_id;
    name = node.name;
    kind = file;
    logical_size = length;
    created_at_ms = node.created_at_ms;
    modified_at_ms = now;
    accessed_at_ms = now;
    revision = node.revision + 1;
    attributes = [];
  }

  into_node-applied :
      (node : RawNode) (g length now : ℕ)
      → into_node (applied_row ws g length now node) ≡ ok (written_node length now node)
  unfolding into_node with_kind kind_of_code revision_new
  into_node-applied node g length now =
      rw (into_node, with_kind, revision_new, positive node.revision) refl

  pub resolve_existing_file-done :
      (path : VirtualPath) (db : Db) (node : RawNode)
      → resolve db ws path ≡ some node
      → (node.kind == file_kind) ≡ true
      → resolve_existing_file ws path db ≡ returned (ok (some node)) db
  unfolding resolve_existing_file transact
  resolve_existing_file-done path db node found is_file =
      rw (resolve_existing_file, transact, found, is_file) refl

module _ (host : Host) (ws : ℕ) (path : VirtualPath) (actor : Text) where
  finalize_tx-done :
      (db db' : Db) (node row : RawNode) (generation length : ℕ) (params : FinalizeParams)
      → resolve db ws path ≡ some node
      → (node.kind == file_kind) ≡ true
      → conflicts params.expected_revision node ≡ false
      → finalize_update host ws path actor node generation length db ≡ Sql.done (applied row) db'
      → finalize_tx host ws path actor params generation length db ≡ Sql.done (applied row) db'
  unfolding finalize_tx finalize_existing
  finalize_tx-done db db' node row generation length params found is_file agrees update =
      ap (λ o. finalize_existing host ws path actor o params generation length db) found
      ∙ switch is_file agrees
    where
      switch :
          (node.kind == file_kind) ≡ true
          → conflicts params.expected_revision node ≡ false
          → finalize_existing host ws path actor (some node) params generation length db
            ≡ Sql.done (applied row) db'
      switch e k =
          ap
            (λ b. if◌then◌else◌ (not b) (Sql.done FinalizeOutcome.wrong_kind db) (
              if◌then◌else◌ (conflicts params.expected_revision node)
                (Sql.done FinalizeOutcome.conflict db)
                (finalize_update host ws path actor node generation length db)))
            e
          ∙ ap
              (λ b.
                if◌then◌else◌ b (Sql.done FinalizeOutcome.conflict db)
                  (finalize_update host ws path actor node generation length db))
              k
          ∙ update

  finalize-done :
      (db db' : Db) (row : RawNode) (generation length : ℕ) (params : FinalizeParams)
      → finalize_tx host ws path actor params generation length db ≡ Sql.done (applied row) db'
      → finalize host ws path actor generation length params db ≡ returned (into_node row) db'
  unfolding finalize finalize_outcome or_abort transact
  finalize-done db db' row generation length params e = rw (finalize, or_abort, transact, e) refl

-- A run that rewrote the file that is found at the path: it returns the file's node, of the next
-- revision and the new size, and from then on the path leads to a file with the content, which is
-- what reading it yields.
pub record Rewrote (ws : ℕ) (path : VirtualPath) (node : RawNode) (content : Text)
    (run : Returned Node) : Type 0 where
  pub after : Db
  pub answer : Node
  pub stored : RawNode
  pub ends : run ≡ returned (ok answer) after
  pub same_id : answer.id ≡ node.id
  pub is_file : answer.kind ≡ file
  pub next_revision : answer.revision ≡ node.revision + 1
  pub new_size : answer.logical_size ≡ length content
  pub shows : Shows after stored content
  pub reads : Yields after path stored content none (read ws path none after)

module _ (host : Host) (ws : ℕ) (path : VirtualPath) (actor : Text) (db : Db) (w : WorkspaceRow)
    (node : RawNode) (old : ℕ) (params : FinalizeParams) (dense : FeedIsDense db)
    (max : find_by (λ w. w.id == ws) db.workspaces ≡ some w)
    (exists : any_by (λ w. w.id == ws) db.workspaces ≡ true)
    (found : resolve db ws path ≡ some node) (is_file : (node.kind == file_kind) ≡ true)
    (agrees : conflicts params.expected_revision node ≡ false)
    (e : node.content_generation_id ≡ some old) (only : OnlyAt node.id old db.nodes)
    (fresh : any_by (λ x. x.id == new_generation host ws db) db.generations ≡ false)
    (other : (old == new_generation host ws db) ≡ false) where
  -- what comes behind the filling of the new generation
  pub finalize-Rewrote :
      (run : Returned (ℕ × ℕ)) (content : Text)
      → Finished (started_db host ws db) (new_generation host ws db) run content
      → Rewrote ws path node content
          (awaited run (λ staged. finalize host ws path actor staged.0 staged.1 params))
  unfolding has_generation is_referenced FeedIsDense
  finalize-Rewrote run content s =
      let g = new_generation host ws db in
      let n = length content in
      let db2 : Db = record (started_db host ws db) { chunks = s.rows } in
      let now = host.clock db2.ticks in
      let free =
        any_by-set_where db.nodes node.id old g n (node.revision + 1) now (swapped old g other)
          only in
      let update =
        finalize_update-done host ws path actor db2 node old g n dense exists e other free in
      let db3 = written_db host ws path actor db2 node old g n in
      let stored = switched_node g n (node.revision + 1) now node in
      let ends = finalize-done host ws path actor db2 db3 (applied_row ws g n now node) g n params (
        finalize_tx-done host ws path actor db2 db3 node (applied_row ws g n now node) g n params
          (resolve-nodes db db2 ws path refl ∙ found) is_file agrees update) in
      let shows : Shows db3 stored content = record {
        generation = g;
        is_file = is_file;
        has_revision = positive node.revision;
        has_generation = refl;
        has_size = refl;
        holds = λ i. chunk_bytes-keep_by s.rows old g i (swapped old g other) ∙ s.holds i;
      } in
      record {
        after = db3;
        answer = written_node ws n now node;
        stored = stored;
        ends =
            ap (λ r. awaited r (λ staged. finalize host ws path actor staged.0 staged.1 params))
              s.ends
            ∙ ends
            ∙ ap (λ a. returned a db3) (into_node-applied ws node g n now);
        same_id = refl;
        is_file = refl;
        next_revision = refl;
        new_size = refl;
        shows = shows;
        reads =
            read-Yields db3 path stored content none ws
              (resolve-same node.id g n (node.revision + 1) now db2 db3 ws path node refl
                (resolve-nodes db db2 ws path refl ∙ found) (==_refl node.id))
              shows (omega arith);
      }

  -- the quota and the new generation, then the rest
  pub replaced :
      (rest : ℕ → ℕ → Async Node) (content : Text)
      → Rewrote ws path node content
          (rest w.max_file_bytes (new_generation host ws db) (started_db host ws db))
      → Rewrote ws path node content (
          (max_file_bytes_of ws >>= (λ m. call (create_generation host ws) >>= (λ k. rest m k))) db)
  replaced rest content s =
      subst (Rewrote ws path node content)
        (sym (
          ap (λ r. awaited r (λ m. call (create_generation host ws) >>= (λ k. rest m k)))
            (max_file_bytes_of-done ws db w max)
          ∙ ap (λ r. awaited r (λ k. rest w.max_file_bytes k))
              (create_generation-done host ws db fresh exists)))
        s
