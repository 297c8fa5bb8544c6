-- ===== src/Groups.antt =====
-- groups.go: how a group of tests is made from test names, tags and dependencies.
pub mod Expand
pub mod Edges
pub mod Closure
pub mod Stores
pub mod Closed
mod Samples
use test.Base.{
  add64, ℕ, zero, suc, ◌+◌, Bool, true, false, not, ◌&&◌, ◌||◌, List, [], ◌∷◌, ◌++◌, Option, none,
  some, Str, codes, str_eq, has, add, has_prefix, Dict, lookup, insert, has_key, is_empty, length,
  if◌then◌else◌,
}
use mathlib.Core.List.{reverse}
use test.Paths.{clean, join, dir, abs, rel}
use test.Graph.{
  Graph, EdgeResult, added, same_node, from_missing, to_missing, SortResult, order, cycle,
  out_of_fuel, new_graph, add_edge, top_sort, leaving, keys,
}

-- A test, as far as groups use it. A `map[string]*Test` of which only the keys matter is a list.
pub record Test : Type 0 where
  pub dependency_id : Str
  pub tags : List Str
  pub depends : List Str
  pub expanded_deps : List Str
  pub is_dependency : Bool
  pub points_available : ℕ
  pub points_earned : ℕ

pub record TestMap : Type 0 where
  pub test_dir : Str
  pub tests : Dict Test
  pub tags : Dict (List Str)

pub data GroupError : Type 0 where
  load_failed bad_pattern outside no_match unknown_test no_tag no_deps self_edge missing_node
        cyclic :
      GroupError

pub data Result {ℓ} (A : Type ℓ) : Type ℓ where
  ok : A → Result A
  err : GroupError → Result A

infixl 5 ◌>>=◌
abbrev pub ◌>>=◌ {ℓ κ} : {A : Type ℓ} {B : Type κ} → Result A → (A → Result B) → Result B
ok a >>= f = f a
err e >>= f = err e

-- The values of workers that succeeded and the errors of the others.
abbrev pub Gathered : Type 0
Gathered = List Str × List GroupError

-- A test that a worker of `load` read, or its error.
pub data Loaded : Type 0 where
  read : Test → Loaded
  failed : Loaded

unfoldable pub load : List Loaded → Dict Test → List GroupError → Dict Test × List GroupError
load [] tests errs = (tests, errs)
load (read t ∷ ls) tests errs = load ls (insert t.dependency_id t tests) errs
load (failed ∷ ls) tests errs = load ls tests (errs ++ load_failed ∷ [])

or_empty : Option (List Str) → List Str
or_empty none = []
or_empty (some ids) = ids

-- The tags of one test are entered in the map of tags.
unfoldable pub tag_test : Str → List Str → Dict (List Str) → Dict (List Str)
unfolding or_empty
tag_test id [] m = m
tag_test id (t ∷ ts) m = tag_test id ts (insert t (or_empty (lookup t m) ++ id ∷ []) m)

unfoldable pub build_tag_map : Dict Test → Dict (List Str) → Dict (List Str)
unfolding tag_test
build_tag_map [] m = m
build_tag_map ((id, t) ∷ tests) m = build_tag_map tests (tag_test id t.tags m)

-- `loaded`: what the workers report for the files of the directory.
unfoldable pub new_test_map : Str → Str → List Loaded → TestMap × List GroupError
unfolding load build_tag_map
new_test_map cwd test_dir loaded =
    let (tests, errs) = load loaded [] [] in
    (record { test_dir = abs cwd test_dir; tests = tests; tags = build_tag_map tests [] }, errs)

unfoldable pub has_suffix : Str → Str → Bool
has_suffix s suffix = has_prefix (reverse s) (reverse suffix)

abbrev pub is_file : Str → Bool
is_file name = has_suffix name (codes ".t")

abbrev pub tagged : GroupError → Option (List Str) → Result (List Str)
tagged e none = err e
tagged e (some ids) = ok ids

unfoldable pub add_all : List Str → List Str → List Str
add_all [] m = m
add_all (id ∷ ids) m = add_all ids (add id m)

-- `cwd`: the working directory. `glob`: doublestar.Glob, `none` for a bad pattern.
module _ (cwd : Str) (glob : Str → Option (List Str)) where
  -- `idFromFile`, with the test directory as an absolute path.
  unfoldable pub id_from_file : Str → Str → Str
  id_from_file file test_dir = rel test_dir (clean (abs cwd file))

  unfoldable pub tests_of_files : TestMap → List Str → Result (List Str)
  unfolding id_from_file
  tests_of_files tm [] = ok []
  tests_of_files tm (f ∷ fs) =
      let id = id_from_file f tm.test_dir in
      let rest = tests_of_files tm fs in
      if has_key id tm.tests then (rest >>= λ ids. ok (id ∷ ids)) else err unknown_test

  abbrev files_found : TestMap → Option (List Str) → Result (List Str)
  files_found tm none = err bad_pattern
  files_found tm (some []) = err no_match
  files_found tm (some (f ∷ fs)) = tests_of_files tm (f ∷ fs)

  unfoldable pub tests_from_glob : TestMap → Str → Str → Result (List Str)
  unfolding tests_of_files
  tests_from_glob tm search start_dir =
      let path =
        clean (join (if has_prefix search (codes "/") then tm.test_dir else start_dir) search) in
      if not (has_prefix path tm.test_dir) then err outside else files_found tm (glob path)

  -- A dependency of a test, or a test of a group: a file, a glob or a tag.
  unfoldable pub expand_dep : TestMap → Test → Str → Result (List Str)
  unfolding has_suffix
  expand_dep tm t dep =
      if is_file dep
      then (tests_from_glob tm dep (dir (join tm.test_dir t.dependency_id)) >>= λ ids.
          if is_empty ids then err no_deps else ok ids)
      else tagged no_deps (lookup dep tm.tags)

  -- The keys of `ExpandedDeps`.
  unfoldable pub expand_test_deps : TestMap → Test → List Str → List Str → Result (List Str)
  expand_test_deps tm t [] deps = ok deps
  expand_test_deps tm t (d ∷ ds) deps =
      expand_dep tm t d >>= λ ids. expand_test_deps tm t ds (add_all ids deps)
