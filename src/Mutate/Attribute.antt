-- ===== src/Mutate/Attribute.antt =====
-- Attributes of nodes, of crates/fslite-sqlite/src/mutate.rs.
use fslite.Common.{
  ℕ, suc, ◌+◌, Bool, true, false, not, ◌&&◌, ◌||◌, Option, none, some, List, [], ◌∷◌, Text, text_eq,
  ltb, leb, length, ◌==◌, if◌then◌else◌,
}
use fslite.Path.{VirtualPath, is_empty}
use fslite.Fault.{
  FsResult, ok, err, invalid_path_or_name, not_found, link_loop, revision_conflict, quota_exceeded,
  of_path,
}
use fslite.Schema.{RawNode, NodeRow, AttributeRow, Db, ChangeKind}
use fslite.Node.{Node, into_node}
use fslite.Sql.{
  Sql, done, panicked, ◌>>=◌, ◌>>◌, pure, Host, now_ms, update_node, any_by, keep_by, Returned,
  transact, finish,
}
use fslite.Change.{append_change}
use fslite.Resolve.{resolve_following, fetch_by_id, ResolveOutcome}
use package.fslite.Mutate.{conflicts}

abbrev pub max_attribute_key_bytes : ℕ
max_attribute_key_bytes = 256

abbrev pub max_attribute_value_bytes : ℕ
max_attribute_value_bytes = 4096

abbrev pub max_attributes_per_node : ℕ
max_attributes_per_node = 64

-- `MutationOptions` is its one field here.
pub data AttributeOutcome : Type 0 where
  updated : RawNode → List (Text × Text) → AttributeOutcome
  missing loop invalid_key quota conflict : AttributeOutcome

with_attributes : FsResult Node → List (Text × Text) → FsResult Node
with_attributes (ok node) attributes = ok (record node { attributes = attributes })
with_attributes (err e) attributes = err e

unfoldable pub attribute_result : AttributeOutcome → VirtualPath → FsResult Node
unfolding with_attributes
attribute_result (updated row attributes) path = with_attributes (into_node row) attributes
attribute_result missing path = err (not_found (of_path path))
attribute_result loop path = err (link_loop (of_path path))
attribute_result invalid_key path = err (invalid_path_or_name (of_path path))
attribute_result quota path = err (quota_exceeded (of_path path))
attribute_result conflict path = err (revision_conflict (of_path path))

abbrev pub is_at : ℕ → Text → AttributeRow → Bool
is_at node_id key a = a.node_id == node_id && text_eq a.key key

-- SELECT COUNT(*) FROM attributes WHERE node_id = ?
unfoldable pub count_attributes : ℕ → List AttributeRow → ℕ
count_attributes node_id [] = 0
count_attributes node_id (a ∷ rows) =
    let rest = count_attributes node_id rows in if a.node_id == node_id then suc rest else rest

-- INSERT … ON CONFLICT(node_id, key) DO UPDATE
unfoldable pub upsert_attribute : ℕ → Text → Text → List AttributeRow → List AttributeRow
upsert_attribute node_id key value [] = record { node_id = node_id; key = key; value = value } ∷ []
upsert_attribute node_id key value (a ∷ rows) =
    if is_at node_id key a
    then record a { value = value } ∷ rows
    else a ∷ upsert_attribute node_id key value rows

-- ORDER BY key, which compares bytes as the keys of a `BTreeMap` are compared
is_key_before : Text → Text → Bool
is_key_before [] ys = true
is_key_before (x ∷ xs) [] = false
is_key_before (x ∷ xs) (y ∷ ys) = ltb x y || x == y && is_key_before xs ys

insert_pair : Text → Text → List (Text × Text) → List (Text × Text)
unfolding is_key_before
insert_pair key value [] = (key, value) ∷ []
insert_pair key value (p ∷ pairs) =
    if is_key_before key p.0 then (key, value) ∷ p ∷ pairs else p ∷ insert_pair key value pairs

pairs_of : (Text → Text) → ℕ → List AttributeRow → List (Text × Text)
unfolding insert_pair
pairs_of encode node_id [] = []
pairs_of encode node_id (a ∷ rows) =
    let rest = pairs_of encode node_id rows in
    if a.node_id == node_id then insert_pair a.key (encode a.value) rest else rest

-- `build_attributes_map`: the map, as a list in the order of the keys.
unfoldable pub build_attributes_map : Host → ℕ → Db → List (Text × Text)
unfolding pairs_of
build_attributes_map host node_id db = pairs_of host.base64 node_id db.attributes

abbrev set_rows : (List AttributeRow → List AttributeRow) → Sql (Unit {0})
set_rows f db = done tt (record db { attributes = f db.attributes })

-- the checks of `set_attribute_tx` that come before its first statement that writes
unfoldable pub set_check : Db → RawNode → Text → Text → Option ℕ → Option AttributeOutcome
set_check db node key value expected =
    if is_empty key || ltb max_attribute_key_bytes (length key)
    then some invalid_key
    else if ltb max_attribute_value_bytes (length value)
    then some quota
    else if conflicts expected node
    then some conflict
    else if not (any_by (is_at node.id key) db.attributes)
        && leb max_attributes_per_node (count_attributes node.id db.attributes)
    then some quota
    else none

abbrev pub touched : ℕ → ℕ → NodeRow → NodeRow
touched revision now r = record r {
  node = record r.node { revision = revision; modified_at_ms = now };
}

module _ (host : Host) (ws : ℕ) (path : VirtualPath) (key : Text) (actor : Text) where
  -- the update of the node, the change and the read back, which both operations make
  unfoldable pub attribute_apply : ChangeKind → RawNode → Sql AttributeOutcome
  attribute_apply kind node = do
    now ← now_ms host
    update_node node.id (touched (node.revision + 1) now)
    append_change ws
        (record {
          kind = kind;
          node_id = some node.id;
          old_path = none;
          new_path = some path.canonical;
          revision = some (node.revision + 1);
        })
        actor now
    λ db. elim (fetch_by_id db ws node.id) [
      | none ↦ panicked
      | some row ↦ done (updated row (build_attributes_map host node.id db)) db
    ]

  unfoldable pub set_found : Text → Option ℕ → RawNode → Sql AttributeOutcome
  set_found value expected node db = elim (set_check db node key value expected) [
    | some outcome ↦ pure outcome db
    | none ↦
        (set_rows (upsert_attribute node.id key value)
            >> attribute_apply ChangeKind.attribute_set node)
          db
  ]

  unfoldable pub set_outcome : Text → Option ℕ → ResolveOutcome → Sql AttributeOutcome
  unfolding set_found attribute_apply
  set_outcome value expected (ResolveOutcome.found node) db = set_found value expected node db
  set_outcome value expected ResolveOutcome.not_found db = pure missing db
  set_outcome value expected ResolveOutcome.broken_link db = pure missing db
  set_outcome value expected ResolveOutcome.link_loop db = pure loop db

  unfoldable pub set_attribute_tx : Text → Option ℕ → Sql AttributeOutcome
  unfolding set_outcome
  set_attribute_tx value expected db =
      set_outcome value expected (resolve_following db ws path false) db

  unfoldable pub set_attribute : Text → Option ℕ → Db → Returned Node
  set_attribute value expected db =
      finish (λ o. attribute_result o path) (transact (set_attribute_tx value expected) db)

  unfoldable pub remove_found : RawNode → Sql AttributeOutcome
  remove_found node db =
      if any_by (is_at node.id key) db.attributes
      then (set_rows (keep_by (λ a. not (is_at node.id key a)))
            >> attribute_apply ChangeKind.attribute_removed node)
          db
      else done (updated node (build_attributes_map host node.id db)) db

  unfoldable pub remove_outcome : Option ℕ → ResolveOutcome → Sql AttributeOutcome
  unfolding remove_found attribute_apply
  remove_outcome expected (ResolveOutcome.found node) db =
      if conflicts expected node then pure conflict db else remove_found node db
  remove_outcome expected ResolveOutcome.not_found db = pure missing db
  remove_outcome expected ResolveOutcome.broken_link db = pure missing db
  remove_outcome expected ResolveOutcome.link_loop db = pure loop db

  unfoldable pub remove_attribute_tx : Option ℕ → Sql AttributeOutcome
  unfolding remove_outcome
  remove_attribute_tx expected db = remove_outcome expected (resolve_following db ws path false) db

  unfoldable pub remove_attribute : Option ℕ → Db → Returned Node
  remove_attribute expected db =
      finish (λ o. attribute_result o path) (transact (remove_attribute_tx expected) db)
