-- ===== src/Keeps/Making.antt =====
-- `mkdir_tx` and `symlink_tx` under such an invariant.
use fslite.Common.{
  ℕ, true, Option, none, some, List, [], ◌∷◌, Text, inl, inr, Bool-cases, Option-cases, ◌==◌,
}
use fslite.Path
use fslite.Path.{VirtualPath, segments, join, name, parent}
use fslite.Schema.{RawNode, Db, directory_kind}
use fslite.Sql.{Host, Sql, Ran, done, failed, panicked}
use fslite.Resolve.{
  ResolveOutcome, found, not_found, broken_link, link_loop, resolve_following, fetch_root,
  fetch_child,
}
use fslite.Directory.{
  joined, create_directory, mkdir_create, mkdir_leaf, mkdir_ancestor, mkdir_walk, mkdir_from,
  mkdir_tx,
}
use fslite.Mutate.Symlink.{
  CreateOptions, symlink_create, symlink_in, symlink_below, symlink_at, symlink_tx,
}
use package.fslite.Keeps.{
  Holds, ends, fails, runs_on, panics, Keeps, Holds-if, Keeps-pure, Keeps-panic, keeps_rules,
}
use package.fslite.Keeps.Statements.{IsKept, new_id-Keeps, now_ms-Keeps}

module _ (P : Db → Type 0) where
  -- what `mkdir_walk` makes of the child that it made
  Holds-walk :
      {A : Type 0} (r : Ran RawNode) (f : RawNode → Sql A)
      → Holds P r
      → ((c : RawNode) → Keeps P (f c))
      → Holds P (elim r [
        | done child db' ↦ f child db'
        | failed e t ↦ failed e t
        | Ran.diverged ↦ Ran.diverged
        | panicked ↦ panicked
      ])
  Holds-walk _ f (ends {a} {db} h) kf = (kf a).at db h
  Holds-walk _ f fails kf = fails
  Holds-walk _ f runs_on kf = runs_on
  Holds-walk _ f panics kf = panics

  Holds-join :
      {A : Type 0} (j : Path.Parsed VirtualPath) (f : VirtualPath → Ran A)
      → ((p : VirtualPath) → Holds P (f p))
      → Holds P (elim j [ Path.ok p ↦ f p | Path.invalid_path_or_name _ ↦ panicked ])
  Holds-join (Path.ok p) f h = h p
  Holds-join (Path.invalid_path_or_name t) f h = panics

module _ {P : Db → Type 0} (k : IsKept P) (host : Host) (ws : ℕ) where
  joined-Keeps : (j : Path.Parsed VirtualPath) → Keeps P (joined j)
  unfolding joined
  joined-Keeps (Path.ok p) = Keeps-pure P p
  joined-Keeps (Path.invalid_path_or_name t) = Keeps-panic P

  module _ (options : CreateOptions) (actor : Text) where
    create_directory-Keeps :
        (parent_id : ℕ) (n : Text) (p : VirtualPath)
        → Keeps P (create_directory host ws options actor parent_id n p)
    unfolding create_directory
    create_directory-Keeps parent_id n p =
        search (keeps_rules, new_id-Keeps k, now_ms-Keeps k, k.insert, k.append) depth 8

    mkdir_create-Keeps :
        (current : RawNode) (p : VirtualPath) (leaf : Text)
        → Keeps P (mkdir_create host ws options actor current p leaf)
    unfolding mkdir_create
    mkdir_create-Keeps current p leaf = search (keeps_rules, joined-Keeps, create_directory-Keeps)

    mkdir_leaf-Keeps :
        (current : RawNode) (p : VirtualPath) (leaf : Text)
        → Keeps P (mkdir_leaf host ws options actor current p leaf)
    unfolding mkdir_leaf
    mkdir_leaf-Keeps current p leaf = record {
      at = λ db h. elim (Bool-cases (current.kind == directory_kind)) [
        | inr e ↦ rw (mkdir_leaf, e) (ends h)
        | inl d ↦ elim (Option-cases (fetch_child db ws current.id leaf)) [
          | inl e ↦ rw (mkdir_leaf, d, e) ((mkdir_create-Keeps current p leaf).at db h)
          | inr (node, e) ↦ rw (mkdir_leaf, d, e) (ends h)
        ]
      ];
    }

    mkdir_ancestor-Keeps :
        (current : RawNode) (p : VirtualPath) (segment : Text)
        → Keeps P (mkdir_ancestor host ws options actor current p segment)
    unfolding mkdir_ancestor
    mkdir_ancestor-Keeps current p segment =
        search (keeps_rules, joined-Keeps, create_directory-Keeps)

    mkdir_walk-Keeps :
        (rest : List Text) (current : RawNode) (p : VirtualPath) (segment : Text)
        → Keeps P (mkdir_walk host ws options actor current p segment rest)
    unfolding mkdir_walk
    mkdir_walk-Keeps [] current p segment = mkdir_leaf-Keeps current p segment
    mkdir_walk-Keeps (next ∷ rest) current p segment = record {
      at = λ db h. elim (Bool-cases (current.kind == directory_kind)) [
        | inr d ↦ rw (mkdir_walk, d) (ends h)
        | inl d ↦ elim (Option-cases (fetch_child db ws current.id segment)) [
          | inr (child, e) ↦
              rw (mkdir_walk, d, e)
                (Holds-join P (join p segment) _
                  (λ p'. (mkdir_walk-Keeps rest child p' next).at db h))
          | inl e ↦ elim (Bool-cases options.parents) [
            | inr o ↦ rw (mkdir_walk, d, e, o) (ends h)
            | inl o ↦
                rw (mkdir_walk, d, e, o)
                  (Holds-walk P _ _ ((mkdir_ancestor-Keeps current p segment).at db h) (λ child.
                    record {
                      at = λ db' h'.
                          Holds-join P (join p segment) _
                            (λ p'. (mkdir_walk-Keeps rest child p' next).at db' h');
                    }))
          ]
        ]
      ];
    }

    mkdir_from-Keeps :
        (segs : List Text) (current : RawNode)
        → Keeps P (mkdir_from host ws options actor current segs)
    unfolding mkdir_from
    mkdir_from-Keeps [] current = Keeps-panic P
    mkdir_from-Keeps (segment ∷ rest) current = mkdir_walk-Keeps rest current Path.root segment

    pub mkdir_tx-Keeps : (segs : List Text) → Keeps P (mkdir_tx host ws options actor segs)
    unfolding mkdir_tx
    mkdir_tx-Keeps segs = record {
      at = λ db h. elim (Option-cases (fetch_root db ws)) [
        | inl e ↦ rw (mkdir_tx, e) (ends h)
        | inr (r, e) ↦ rw (mkdir_tx, e) ((mkdir_from-Keeps segs r).at db h)
      ];
    }

  module _ (link : VirtualPath) (target : Text) (options : CreateOptions) (actor : Text) where
    symlink_create-Keeps :
        (parent_id : ℕ) (n : Text)
        → Keeps P (symlink_create host ws link target options actor parent_id n)
    unfolding symlink_create
    symlink_create-Keeps parent_id n =
        search (keeps_rules, new_id-Keeps k, now_ms-Keeps k, k.insert, k.append) depth 8

    symlink_in-Keeps :
        (p : RawNode) (n : Text) → Keeps P (symlink_in host ws link target options actor p n)
    unfolding symlink_in
    symlink_in-Keeps p n = record {
      at = λ db h. elim (Option-cases (fetch_child db ws p.id n)) [
        | inl e ↦ rw (symlink_in, e) ((symlink_create-Keeps p.id n).at db h)
        | inr (r, e) ↦ rw (symlink_in, e) (ends h)
      ];
    }

    symlink_below-Keeps :
        (outcome : ResolveOutcome) (n : Text)
        → Keeps P (symlink_below host ws link target options actor outcome n)
    unfolding symlink_below
    symlink_below-Keeps not_found n = Keeps-pure P _
    symlink_below-Keeps broken_link n = Keeps-pure P _
    symlink_below-Keeps link_loop n = Keeps-pure P _
    symlink_below-Keeps (found p) n = record {
      at = λ db h. search (Holds-if, ends, (symlink_in-Keeps p n).at);
    }

    symlink_at-Keeps :
        (n : Option Text) (p : Option VirtualPath)
        → Keeps P (symlink_at host ws link target options actor n p)
    unfolding symlink_at
    symlink_at-Keeps none p = Keeps-panic P
    symlink_at-Keeps (some n) none = Keeps-panic P
    symlink_at-Keeps (some n) (some p) = record {
      at = λ db h. (symlink_below-Keeps (resolve_following db ws p true) n).at db h;
    }

    pub symlink_tx-Keeps : Keeps P (symlink_tx host ws link target options actor)
    unfolding symlink_tx
    symlink_tx-Keeps = symlink_at-Keeps (name link) (parent link)
