-- ===== src/Groups/Expand.antt =====
-- groups.go: the dependency graph of the tests, and the group that a configuration asks for.
use test.Base.{
  add64, ℕ, zero, suc, Bool, true, not, List, [], ◌∷◌, ◌++◌, Option, none, some, Str, str_eq, has,
  Dict, lookup, has_key, is_empty, length, if◌then◌else◌,
}
use test.Paths.{abs}
use test.Graph.{
  Graph, EdgeResult, added, same_node, from_missing, to_missing, SortResult, order, cycle,
  out_of_fuel, new_graph, add_edge, top_sort, leaving,
}
use test.Groups.{
  Test, TestMap, GroupError, self_edge, missing_node, cyclic, no_tag, Result, ok, err, Loaded,
  new_test_map, has_suffix, is_file, tests_from_glob, tagged, expand_test_deps, add_all,
}

pub record GroupConfig : Type 0 where
  pub use_deps : Bool
  pub tests : List Str
  pub test_dir : Str

-- The tests of a group are ids, in a store of all tests. `looping`: the fuel ran out.
pub data GroupResult : Type 0 where
  made : Dict Test → List Str → GroupResult
  failed : List GroupError → GroupResult
  looping : GroupResult

unfoldable pub ids_of : Dict Test → List Str
ids_of [] = []
ids_of ((id, t) ∷ tests) = id ∷ ids_of tests

abbrev pub Building : Type 0
Building = Graph × List GroupError

abbrev pub edge_made : Graph → List GroupError → EdgeResult → Building
edge_made g errs (added g') = (g', errs)
edge_made g errs same_node = (g, errs ++ self_edge ∷ [])
edge_made g errs from_missing = (g, errs ++ missing_node ∷ [])
edge_made g errs to_missing = (g, errs ++ missing_node ∷ [])

unfoldable pub add_edges : Str → List Str → Building → Building
add_edges id [] b = b
add_edges id (d ∷ ds) (g, errs) = add_edges id ds (edge_made g errs (add_edge id d g))

unfoldable pub add_test_edges : Dict Test → Building → Building
unfolding add_edges
add_test_edges [] b = b
add_test_edges ((id, t) ∷ tests) b = add_test_edges tests (add_edges id t.expanded_deps b)

-- `DependencyGraph` of a group, which stops at the first error.
abbrev edge_or_error : EdgeResult → Result Graph
edge_or_error (added g) = ok g
edge_or_error same_node = err self_edge
edge_or_error from_missing = err missing_node
edge_or_error to_missing = err missing_node

unfoldable pub link_deps : Str → List Str → Graph → Result Graph
link_deps id [] g = ok g
link_deps id (d ∷ ds) g = elim (edge_or_error (add_edge id d g)) [
  | ok g' ↦ link_deps id ds g'
  | err e ↦ err e
]

unfoldable pub link_tests : Dict Test → Graph → Result Graph
unfolding link_deps
link_tests [] g = ok g
link_tests ((id, t) ∷ tests) g = elim (link_deps id t.expanded_deps g) [
  | ok g' ↦ link_tests tests g'
  | err e ↦ err e
]

unfoldable pub group_graph : Dict Test → Result Graph
unfolding link_tests ids_of
group_graph tests = link_tests tests (new_graph (ids_of tests))

-- `getDepNodesHelper`, as deep as the fuel allows. `visit`: the call for a node.
unfoldable pub visit_all :
    (Str → List Str → Option (List Str)) → List Str → List Str → Option (List Str)
visit_all visit [] tests = some tests
visit_all visit (n ∷ ns) tests = elim (visit n tests) [
  | none ↦ none
  | some more ↦ visit_all visit ns more
]

unfoldable pub mark : Test → Test
mark t = record t { is_dependency = true }

unfoldable pub set_dependency : Str → Dict Test → Dict Test
unfolding mark
set_dependency id [] = []
set_dependency id ((j, t) ∷ tests) =
    let rest = set_dependency id tests in if str_eq j id then (j, mark t) ∷ tests else (j, t) ∷ rest

abbrev pub Grouping : Type 0
Grouping = Dict Test × List Str

unfoldable pub join_deps : List Str → Grouping → Grouping
unfolding set_dependency has
join_deps [] s = s
join_deps (id ∷ ids) (tests, group) =
    join_deps ids
      (if has id group then (tests, group) else (set_dependency id tests, group ++ id ∷ []))

module _ (range : List Str → List Str) where
  unfoldable pub dep_nodes : ℕ → Graph → Str → List Str → Option (List Str)
  unfolding visit_all
  dep_nodes zero g id tests = none
  dep_nodes (suc fuel) g id tests =
      visit_all (dep_nodes fuel g) (range (leaving g id)) (tests ++ id ∷ [])

  -- `getDepNodes`. The error for an id that is no node is not looked at by the caller.
  unfoldable pub get_dep_nodes : Graph → Str → Option (List Str)
  unfolding dep_nodes has_key
  get_dep_nodes g id = if has_key id g then dep_nodes (suc (length g)) g id [] else some []

  -- What the workers report, one after the other.
  unfoldable pub collect : Graph → List Str → Option (List Str)
  unfolding get_dep_nodes
  collect g [] = some []
  collect g (id ∷ ids) = elim (get_dep_nodes g id) [
    | none ↦ none
    | some found ↦ elim (collect g ids) [ none ↦ none | some more ↦ some (found ++ more) ]
  ]

  abbrev pub grouped : Option (List Str) → Grouping → GroupResult
  grouped none s = looping
  grouped (some found) s = made ((join_deps found s).0) ((join_deps found s).1)

  unfoldable pub add_dependencies : Dict Test → Graph → List Str → SortResult → GroupResult
  unfolding join_deps collect
  add_dependencies tests g ids (order _) = grouped (collect g ids) (tests, ids)
  add_dependencies tests g ids cycle = failed (cyclic ∷ [])
  add_dependencies tests g ids out_of_fuel = looping

module _ (cwd : Str) (glob : Str → Option (List Str)) where
  abbrev pub expanded :
      Str → Test → Result (List Str) → Dict Test × List GroupError → Dict Test × List GroupError
  expanded id t (ok deps) (tests, errs) = ((id, record t { expanded_deps = deps }) ∷ tests, errs)
  expanded id t (err e) (tests, errs) = ((id, t) ∷ tests, e ∷ errs)

  unfoldable pub expand_all_deps : TestMap → Dict Test → Dict Test × List GroupError
  unfolding expand_test_deps
  expand_all_deps tm [] = ([], [])
  expand_all_deps tm ((id, t) ∷ tests) =
      expanded id t (expand_test_deps cwd glob tm t t.depends []) (expand_all_deps tm tests)

  -- `dependencyGraph` of the test map, with the tests that now know their dependencies.
  unfoldable pub dependency_graph : TestMap → Dict Test × Building
  unfolding expand_all_deps add_test_edges ids_of
  dependency_graph tm =
      let (tests, errs) = expand_all_deps tm tm.tests in
      if not (is_empty errs)
      then (tests, (new_graph [], errs))
      else (tests, add_test_edges tests (new_graph (ids_of tests), []))

  unfoldable pub expand_test : TestMap → Str → Str → Result (List Str)
  unfolding has_suffix
  expand_test tm start_dir test =
      if is_file test
      then tests_from_glob cwd glob tm test start_dir
      else tagged no_tag (lookup test tm.tags)

  abbrev gathered : Result (List Str) → List Str × List GroupError → List Str × List GroupError
  gathered (ok ids) (group, errs) = (add_all ids group, errs)
  gathered (err e) (group, errs) = (group, e ∷ errs)

  unfoldable pub expand_tests : TestMap → Str → List Str → List Str × List GroupError
  unfolding expand_test
  expand_tests tm start_dir [] = ([], [])
  expand_tests tm start_dir (t ∷ ts) =
      gathered (expand_test tm start_dir t) (expand_tests tm start_dir ts)

  module _ (range : List Str → List Str) where
    abbrev pub grouped_by : Dict Test → Graph → List GroupError → List Str → GroupResult
    grouped_by tests g errs ids =
        if not (is_empty errs)
        then failed errs
        else add_dependencies range tests g ids (top_sort range g)

    unfoldable pub with_dependencies : TestMap → List Str → GroupResult
    unfolding dependency_graph add_dependencies
    with_dependencies tm ids =
        let (tests, (g, errs)) = dependency_graph tm in grouped_by tests g errs ids

    unfoldable pub group_from_config : GroupConfig → List Loaded → GroupResult
    unfolding with_dependencies expand_tests new_test_map
    group_from_config config loaded =
        let (tm, errs) = new_test_map cwd config.test_dir loaded in
        let (ids, errors) = expand_tests tm (abs cwd config.test_dir) config.tests in
        if not (is_empty errs)
        then failed errs
        else if not (is_empty errors)
        then failed errors
        else if not config.use_deps
        then made tm.tests ids
        else with_dependencies tm ids

unfoldable pub total_points : Dict Test → ℕ → ℕ
unfolding add64
total_points [] points = points
total_points ((id, t) ∷ tests) points = total_points tests (add64 points t.points_available)

unfoldable pub earned_points : Dict Test → ℕ → ℕ
unfolding add64
earned_points [] points = points
earned_points ((id, t) ∷ tests) points = earned_points tests (add64 points t.points_earned)
