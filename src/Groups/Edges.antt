-- ===== src/Groups/Edges.antt =====
-- The dependency graph has the edges that the expanded dependencies say.
use test.Base.{
  ◌≡◌, refl, ◌∙◌, Bool, true, false, ◌&&◌, ◌||◌, List, [], ◌∷◌, ◌++◌, Option, none, some, Str,
  str_eq, str_eq_iff, has, Dict, lookup, has_key, is_empty, arith,
}
use test.Graph.{
  Graph, EdgeResult, added, same_node, from_missing, to_missing, add_edge, leaving, new_graph,
}
use test.Graph.Nodes.{Distinct}
use test.Graph.Edges.{IsGraph, add_edge-IsGraph, added_nodes, leaving-link, has_key-link}
use test.Graph.Copy.{new_graph-IsGraph, leaving-new_graph, has_key-new_graph}
use test.Groups.{Test, GroupError}
use test.Groups.Expand.{ids_of, Building, edge_made, add_edges, add_test_edges}

-- The keys of a test's `ExpandedDeps`.
abbrev pub deps_of : Option Test → List Str
deps_of none = []
deps_of (some t) = t.expanded_deps

-- Whether one test depends on another.
abbrev pub depends : Dict Test → Str → Str → Bool
depends tests u v = has v (deps_of (lookup u tests))

not_empty_snoc : (errs : List GroupError) (e : GroupError) → is_empty (errs ++ e ∷ []) ≡ false
not_empty_snoc [] e = refl
not_empty_snoc (x ∷ errs) e = refl

module _ (id d : Str) (g : Graph) (errs : List GroupError) where
  made-IsGraph :
      (r : EdgeResult) → add_edge id d g ≡ r → IsGraph g → IsGraph ((edge_made g errs r).0)
  made-IsGraph (added g') e i = add_edge-IsGraph id d g g' i e
  made-IsGraph same_node e i = i
  made-IsGraph from_missing e i = i
  made-IsGraph to_missing e i = i

  made-nodes :
      (r : EdgeResult)
      → add_edge id d g ≡ r
      → (v : Str) → has_key v ((edge_made g errs r).0) ≡ has_key v g
  made-nodes (added g') e v =
      let (p, hf, ht) = added_nodes id d g g' e in rw p (has_key-link id d g v)
  made-nodes same_node e v = refl
  made-nodes from_missing e v = refl
  made-nodes to_missing e v = refl

  made-errors : (r : EdgeResult) → is_empty ((edge_made g errs r).1) ≡ true → is_empty errs ≡ true
  made-errors (added g') h = h
  made-errors same_node h = cc (not_empty_snoc errs GroupError.self_edge)
  made-errors from_missing h = cc (not_empty_snoc errs GroupError.missing_node)
  made-errors to_missing h = cc (not_empty_snoc errs GroupError.missing_node)

  made-leaving :
      (r : EdgeResult)
      → add_edge id d g ≡ r
      → is_empty ((edge_made g errs r).1) ≡ true
      → (u v : Str)
      → has v (leaving ((edge_made g errs r).0) u)
        ≡ (has v (leaving g u) || (str_eq id u && str_eq d v))
  made-leaving (added g') e h u v =
      let (p, hf, ht) = added_nodes id d g g' e in
      rw p (leaving-link id d g u v ∙ ground (arith, str_eq_iff id u))
  made-leaving same_node e h u v = cc (not_empty_snoc errs GroupError.self_edge)
  made-leaving from_missing e h u v = cc (not_empty_snoc errs GroupError.missing_node)
  made-leaving to_missing e h u v = cc (not_empty_snoc errs GroupError.missing_node)

module _ (id : Str) where
  edges-IsGraph : (ds : List Str) (b : Building) → IsGraph (b.0) → IsGraph ((add_edges id ds b).0)
  unfolding add_edges
  edges-IsGraph [] b i = i
  edges-IsGraph (d ∷ ds) (g, errs) i = edges-IsGraph ds _ (made-IsGraph id d g errs _ refl i)

  edges-nodes :
      (ds : List Str) (b : Building) (v : Str) → has_key v ((add_edges id ds b).0) ≡ has_key v (b.0)
  unfolding add_edges
  edges-nodes [] b v = refl
  edges-nodes (d ∷ ds) (g, errs) v = edges-nodes ds _ v ∙ made-nodes id d g errs _ refl v

  edges-errors :
      (ds : List Str) (b : Building)
      → is_empty ((add_edges id ds b).1) ≡ true
      → is_empty (b.1) ≡ true
  unfolding add_edges
  edges-errors [] b h = h
  edges-errors (d ∷ ds) (g, errs) h = made-errors id d g errs _ (edges-errors ds _ h)

  edges-leaving :
      (ds : List Str) (b : Building)
      → is_empty ((add_edges id ds b).1) ≡ true
      → (u v : Str)
      → has v (leaving ((add_edges id ds b).0) u)
        ≡ (has v (leaving (b.0) u) || (str_eq id u && has v ds))
  unfolding add_edges has
  edges-leaving [] b h u v = ground arith
  edges-leaving (d ∷ ds) (g, errs) h u v =
      edges-leaving ds _ h u v
      ∙ rw (made-leaving id d g errs _ refl (edges-errors ds _ h) u v) (ground arith)

-- The dependencies of a map, whichever entry they stand in.
abbrev entry_depends : Dict Test → Str → Str → Bool
entry_depends [] u v = false
entry_depends ((id, t) ∷ tests) u v =
    (str_eq id u && has v t.expanded_deps) || entry_depends tests u v

entry_missing :
    (tests : Dict Test) (u v : Str) → has u (ids_of tests) ≡ false → entry_depends tests u v ≡ false
unfolding ids_of has
entry_missing [] u v h = refl
entry_missing ((id, t) ∷ tests) u v h = ground (arith, entry_missing tests u v)

entry-depends :
    (tests : Dict Test) (u v : Str)
    → Distinct (ids_of tests)
    → entry_depends tests u v ≡ depends tests u v
unfolding ids_of lookup has
entry-depends [] u v h = refl
entry-depends ((id, t) ∷ tests) u v h =
    ground (arith, entry-depends tests u v h.1, entry_missing tests u v, str_eq_iff id u, h.0)

tests-IsGraph :
    (tests : Dict Test) (b : Building) → IsGraph (b.0) → IsGraph ((add_test_edges tests b).0)
unfolding add_test_edges
tests-IsGraph [] b i = i
tests-IsGraph ((id, t) ∷ tests) b i = tests-IsGraph tests _ (edges-IsGraph id t.expanded_deps b i)

tests-nodes :
    (tests : Dict Test) (b : Building) (v : Str)
    → has_key v ((add_test_edges tests b).0) ≡ has_key v (b.0)
unfolding add_test_edges
tests-nodes [] b v = refl
tests-nodes ((id, t) ∷ tests) b v = tests-nodes tests _ v ∙ edges-nodes id t.expanded_deps b v

tests-errors :
    (tests : Dict Test) (b : Building)
    → is_empty ((add_test_edges tests b).1) ≡ true
    → is_empty (b.1) ≡ true
unfolding add_test_edges
tests-errors [] b h = h
tests-errors ((id, t) ∷ tests) b h = edges-errors id t.expanded_deps b (tests-errors tests _ h)

tests-leaving :
    (tests : Dict Test) (b : Building)
    → is_empty ((add_test_edges tests b).1) ≡ true
    → (u v : Str)
    → has v (leaving ((add_test_edges tests b).0) u)
      ≡ (has v (leaving (b.0) u) || entry_depends tests u v)
unfolding add_test_edges
tests-leaving [] b h u v = ground arith
tests-leaving ((id, t) ∷ tests) b h u v =
    tests-leaving tests _ h u v
    ∙ rw (edges-leaving id t.expanded_deps b (tests-errors tests _ h) u v) (ground arith)

-- The graph that `dependencyGraph` makes of the tests.
module _ (tests : Dict Test) where
  abbrev pub built : Building
  built = add_test_edges tests (new_graph (ids_of tests), [])

  pub built-IsGraph : IsGraph (built.0)
  built-IsGraph = tests-IsGraph tests _ (new_graph-IsGraph (ids_of tests))

  pub built-leaving :
      Distinct (ids_of tests)
      → is_empty (built.1) ≡ true
      → (u v : Str) → has v (leaving (built.0) u) ≡ depends tests u v
  unfolding has
  built-leaving d h u v =
      tests-leaving tests _ h u v ∙ rw (leaving-new_graph, entry-depends tests u v d) refl

  pub built-nodes : (v : Str) → has_key v (built.0) ≡ has v (ids_of tests)
  built-nodes v = tests-nodes tests _ v ∙ has_key-new_graph (ids_of tests) v
