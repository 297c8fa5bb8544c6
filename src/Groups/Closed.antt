-- ===== src/Groups/Closed.antt =====
-- A group with dependencies holds exactly the tests asked for and those that they depend on.
use test.Base.{
  ◌≡◌, ◌↔◌, ◌⊎◌, refl, sym, ap, subst, ◌∙◌, inl, inr, true, false, not, ◌&&◌, List, [], ◌∷◌, Option,
  some, Str, has, has_key, Dict, lookup, is_empty, if◌then◌else◌, arith, Bool-cases, ||-cases,
}
use mathlib.Core.Option
use test.Paths.{abs}
use test.Graph.{Graph, SortResult, order, cycle, out_of_fuel}
use test.Graph.Nodes.{Distinct}
use test.Graph.Edges.{IsGraph}
use test.Graph.Order.{Topological}
use test.Graph.Rounds.{RangeLaws}
use test.Graph.Cycles.{Walk, one, longer}
use test.Graph.Correct.{edge, Meets, result-Meets}
use test.Groups.{Test, Result, ok, err, expand_test_deps, TestMap, GroupError, Loaded, new_test_map}
use test.Groups.Expand.{
  GroupConfig, GroupResult, made, looping, ids_of, mark, join_deps, grouped, add_dependencies,
  expand_all_deps, dependency_graph, expand_tests, with_dependencies, group_from_config, expanded,
  Building, grouped_by,
}
use test.Groups.Edges.{depends, built, built-IsGraph, built-leaving, built-nodes}
use test.Groups.Stores.{
  has-join_deps, lookup-join_deps, Distinct-load, ids-join_deps, depends-join_deps,
}
use test.Groups.Closure.{Collected, collect-Collected}

-- The tests in an order in which each stands behind those that depend on it.
abbrev pub Ordered : Dict Test → Type 0
Ordered tests =
    (vs : List Str) × Topological (depends tests) [] vs
    × ((v : Str) → has v vs ≡ has v (ids_of tests))
    × ((u v : Str) → depends tests u v ≡ true → has v vs ≡ true)

-- What a group is to be, for the tests asked for and the store of tests with their dependencies:
-- those tests and the ones that they depend on, directly or not; the latter are marked, and
-- nothing else changes; and the store has an order. `Why`: what has to hold where there is no group.
abbrev pub Closed : Type 0 → List Str → Dict Test → GroupResult → Type 0
Closed Why asked tests (made store group) =
    ((v : Str)
      → (has v group ≡ true)
        ↔ ((has v asked ≡ true) ⊎ ((u : Str) × (has u asked ≡ true) × Walk (depends tests) u v)))
    × ((v : Str)
        → lookup v store ≡ (
            if has v group && not (has v asked)
            then Option.map mark (lookup v tests)
            else lookup v tests))
    × Ordered store
Closed Why asked tests (GroupResult.failed errs) = (is_empty errs ≡ false) × Why
Closed Why asked tests looping = ⊥

abbrev HasCycle : Dict Test → Type 0
HasCycle tests = (u : Str) × Walk (depends tests) u u

weaker :
    {V W : Type 0} (asked : List Str) (tests : Dict Test) (r : GroupResult)
    → (V → W)
    → Closed V asked tests r
    → Closed W asked tests r
weaker asked tests (made store group) f c = c
weaker asked tests (GroupResult.failed errs) f c = (c.0, f c.1)
weaker asked tests looping f c = c

module _ (range : List Str → List Str) (laws : RangeLaws range) where
  -- The last part of `GroupFromConfig`, on a graph with the edges of the dependencies.
  module _ (tests : Dict Test) (g : Graph) (asked : List Str)
      (edges : (u v : Str) → edge g u v ≡ depends tests u v)
      (nodes : (v : Str) → has_key v g ≡ has v (ids_of tests)) where
    same_walk : {u v : Str} → Walk (edge g) u v → Walk (depends tests) u v
    same_walk (one e) = one (sym (edges _ _) ∙ e)
    same_walk (longer e w) = longer (sym (edges _ _) ∙ e) (same_walk w)

    walk_back : {u v : Str} → Walk (depends tests) u v → Walk (edge g) u v
    walk_back (one e) = one (edges _ _ ∙ e)
    walk_back (longer e w) = longer (edges _ _ ∙ e) (walk_back w)

    module _ (found : List Str) (c : Collected (edge g) asked found) (o : Ordered tests) where
      from_asked :
          (v : Str)
          → has v found ≡ true
          → (has v asked ≡ true) ⊎ ((u : Str) × (has u asked ≡ true) × Walk (depends tests) u v)
      from_asked v h =
          let (u, hu, reached) = c.sound v h in
          elim reached [ inl p ↦ inl (rw (← p) hu) | inr w ↦ inr (u, hu, same_walk w) ]

      member :
          (v : Str)
          → (has v ((join_deps found (tests, asked)).1) ≡ true)
            ↔ ((has v asked ≡ true) ⊎ ((u : Str) × (has u asked ≡ true) × Walk (depends tests) u v))
      member v = (
        λ h. elim (||-cases (has v asked) (has v found) (sym (has-join_deps found _ v) ∙ h)) [
          | inl a ↦ inl a
          | inr f ↦ from_asked v f
        ],
        λ r. has-join_deps found _ v ∙ elim r [
          | inl a ↦ rw a refl
          | inr (u, hu, w) ↦ rw (c.complete u v hu (walk_back w)) (ground arith)
        ],
      )

      stored :
          (v : Str)
          → lookup v ((join_deps found (tests, asked)).0) ≡ (
              if has v ((join_deps found (tests, asked)).1) && not (has v asked)
              then Option.map mark (lookup v tests)
              else lookup v tests)
      stored v = lookup-join_deps found _ v ∙ ground (arith, has-join_deps found (tests, asked) v)

      grouped-Closed :
          Closed (HasCycle tests) asked tests (grouped range (some found) (tests, asked))
      grouped-Closed = (
        member,
        stored,
        (
          o.0,
          subst (λ e. Topological e [] (o.0))
              (λ j u v. sym (depends-join_deps found (tests, asked) u v) j) o.1,
          (λ v. o.2 v ∙ ap (has v) (sym (ids-join_deps found (tests, asked)))),
          (λ u v h. o.3 u v (sym (depends-join_deps found (tests, asked) u v) ∙ h)),
        ),
      )

    add-Closed :
        (i : IsGraph g) (r : SortResult)
        → Meets g r
        → Closed (HasCycle tests) asked tests (add_dependencies range tests g asked r)
    unfolding add_dependencies
    add-Closed i (order vs) m =
        let (found, p, c) = collect-Collected range laws g vs i m.0 m.1 asked in
        rw p (
          grouped-Closed found c (
            vs,
            subst (λ e. Topological e [] vs) (λ j u v. edges u v j) m.0,
            (λ v. m.1 v ∙ nodes v),
            (λ u v h. m.1 v ∙ i.closed u v (edges u v ∙ h)),
          ))
    add-Closed i cycle m = (refl, (m.0, same_walk m.1))
    add-Closed i out_of_fuel m = m

  module _ (cwd : Str) (glob : Str → Option (List Str)) (tm : TestMap) where
    ids-of-expanded :
        (id : Str) (t : Test) (r : Result (List Str)) (rest : Dict Test × List GroupError)
        → ids_of ((expanded cwd glob id t r rest).0) ≡ id ∷ ids_of (rest.0)
    unfolding ids_of
    ids-of-expanded id t (ok deps) rest = refl
    ids-of-expanded id t (err e) rest = refl

    ids-expanded :
        (tests : Dict Test) → ids_of ((expand_all_deps cwd glob tm tests).0) ≡ ids_of tests
    unfolding expand_all_deps ids_of
    ids-expanded [] = refl
    ids-expanded ((id, t) ∷ tests) =
        ids-of-expanded id t (expand_test_deps cwd glob tm t t.depends []) _
        ∙ ap (λ (is : List Str). id ∷ is) (ids-expanded tests)

    module _ (asked : List Str) (tests : Dict Test) (d : Distinct (ids_of tests)) where
      by-Closed :
          (b : Building)
          → b ≡ built tests
          → Closed
              ((is_empty (b.1) ≡ false) ⊎ HasCycle tests)
              asked
              tests
              (grouped_by cwd glob range tests (b.0) (b.1) asked)
      by-Closed b e = elim (Bool-cases (is_empty (b.1))) [
        | inl clear ↦ rw clear (
            weaker asked tests _ inr (
              add-Closed tests (b.0) asked
                (λ u v. rw e (
                  built-leaving tests d (subst (λ (c : Building). is_empty (c.1) ≡ true) e clear) u
                    v))
                (λ v. rw e (built-nodes tests v)) (rw e (built-IsGraph tests)) _
                (result-Meets range laws (b.0) (rw e (built-IsGraph tests)))))
        | inr h ↦ rw h (h, inl refl)
      ]

    with_dependencies-Closed :
        (asked : List Str)
        → Distinct (ids_of tm.tests)
        → Closed
            ((is_empty ((dependency_graph cwd glob tm).1.1) ≡ false)
              ⊎ HasCycle ((expand_all_deps cwd glob tm tm.tests).0))
            asked
            ((expand_all_deps cwd glob tm tm.tests).0)
            (with_dependencies cwd glob range tm asked)
    unfolding with_dependencies
    with_dependencies-Closed asked d =
        let tests = (expand_all_deps cwd glob tm tm.tests).0 in
        let d' : Distinct (ids_of tests) = rw ids-expanded d in
        elim (Bool-cases (is_empty (expand_all_deps cwd glob tm tm.tests).1)) [
          | inl e ↦ rw (e, dependency_graph) (by-Closed asked tests d' (built tests) refl)
          | inr e ↦ rw (e, dependency_graph) (rw e (e, inl refl))
        ]

  module _ (cwd : Str) (glob : Str → Option (List Str)) (config : GroupConfig)
      (loaded : List Loaded) where
    -- The tests that were read, the names that were expanded, and the errors of both.
    abbrev pub reading : TestMap × List GroupError
    reading = new_test_map cwd config.test_dir loaded

    abbrev pub asking : List Str × List GroupError
    asking = expand_tests cwd glob (reading.0) (abs cwd config.test_dir) config.tests

    abbrev pub knowing : Dict Test
    knowing = (expand_all_deps cwd glob (reading.0) (reading.0).tests).0

    -- The reasons for which there is no group.
    abbrev pub Refused : Type 0
    Refused =
        (is_empty (reading.1) ≡ false)
        ⊎ (is_empty (asking.1) ≡ false)
        ⊎ (is_empty ((dependency_graph cwd glob (reading.0)).1.1) ≡ false)
        ⊎ HasCycle knowing

    all_well :
        is_empty (reading.1) ≡ true
        → is_empty (asking.1) ≡ true
        → config.use_deps ≡ true
        → group_from_config cwd glob range config loaded
          ≡ with_dependencies cwd glob range (reading.0) (asking.0)
    unfolding group_from_config
    all_well h k u = ground arith

    -- With dependencies, `GroupFromConfig` always ends. Where it makes a group, this holds exactly the
    -- tests that the configuration names and those that they depend on, directly or not; of the store,
    -- the latter are marked as dependencies and nothing else changes, and its tests have an order in
    -- which each stands behind those that depend on it. Where it returns errors, there is
    -- one, and reading the tests, expanding the names, or expanding and linking the dependencies gave
    -- one, or a test depends on itself along some way. The order in which maps are visited is free.
    pub group_from_config-Closed :
        config.use_deps ≡ true
        → Closed Refused (asking.0) knowing (group_from_config cwd glob range config loaded)
    unfolding group_from_config
    group_from_config-Closed u = elim (Bool-cases (is_empty (reading.1))) [
      | inr h ↦ rw (h, group_from_config) (h, inl refl)
      | inl h ↦ elim (Bool-cases (is_empty (asking.1))) [
        | inr k ↦ rw (h, group_from_config) (rw (k, group_from_config) (k, inr (inl refl)))
        | inl k ↦ rw (all_well h k u) (
            weaker (asking.0) knowing _ (λ w. inr (inr w))
              (with_dependencies-Closed cwd glob (reading.0) (asking.0)
                (Distinct-load loaded [] [] tt)))
      ]
    ]
