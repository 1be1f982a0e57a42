-- ===== src/Mutate.antt =====
-- crates/fslite-sqlite/src/mutate.rs: what its operations share.
pub mod Move
pub mod Remove
pub mod Copy
pub mod Symlink
pub mod Attribute
use fslite.Common.{ℕ, Bool, true, false, not, Option, none, some, Text, ◌==◌, if◌then◌else◌}
use fslite.Path.{VirtualPath, name, parent}
use fslite.Schema.{RawNode, Db, directory_kind}
use fslite.Resolve.{
  ResolveOutcome, found, not_found, broken_link, link_loop, resolve_following, fetch_child,
}

-- `options.expected_revision` against the stored revision
abbrev pub conflicts : Option ℕ → RawNode → Bool
conflicts none node = false
conflicts (some expected) node = not (node.revision == expected)

-- `Ready` carries `to.name()` too, which the callers ask for again; `no_parent` is the `expect`.
pub data Destination : Type 0 where
  ready : ℕ → Option RawNode → Text → Destination
  is_root parent_not_found parent_not_directory no_parent : Destination

destination_in : Db → ℕ → Text → ResolveOutcome → Destination
destination_in db ws name (found p) =
    if p.kind == directory_kind
    then ready p.id (fetch_child db ws p.id name) name
    else parent_not_directory
destination_in db ws name not_found = parent_not_found
destination_in db ws name broken_link = parent_not_found
destination_in db ws name link_loop = parent_not_found

destination_below : Db → ℕ → Text → Option VirtualPath → Destination
unfolding destination_in
destination_below db ws name none = no_parent
destination_below db ws name (some parent_path) =
    destination_in db ws name (resolve_following db ws parent_path true)

unfoldable pub resolve_destination : Db → ℕ → VirtualPath → Destination
unfolding destination_below
resolve_destination db ws to = elim (name to) [
  | none ↦ is_root
  | some n ↦ destination_below db ws n (parent to)
]
