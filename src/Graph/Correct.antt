-- ===== src/Graph/Correct.antt =====
-- What `TopSort` returns: a topological order of all nodes, or an error where there is a cycle.
use test.Base.{
  ◌≤◌, ◌≡◌, ◌↔◌, refl, subst, ◌∙◌, ◌⊎◌, inl, inr, Bool, true, false, not, ◌&&◌, List, [], ◌∷◌, some,
  Str, str_eq_iff, str_eq_refl, has, is_empty, has_key, length, arith, Bool-cases,
}
use test.Graph.{
  Graph, Sorting, SortResult, order, cycle, out_of_fuel, leaving, entering, keys, copy, start,
  rounds, no_edges, outcome, top_sort, without_entering,
}
use test.Graph.Nodes.{Distinct, has_key-keys}
use test.Graph.Edges.{IsGraph}
use test.Graph.Copy.{
  has_key-copy, leaving-copy, entering-copy, copy-IsGraph, leaving_missing, length-keys-copy,
}
use test.Graph.Order.{Topological}
use test.Graph.Rounds.{RangeLaws, Sorts}
use test.Graph.Finish.{
  left_over, left_over-le, rounds-total, no_edges-entering, no_edges_of, empty_of_has,
}
use test.Graph.Cycles.{Walk, closed_walk, no_closed_walk, one, longer}

-- An edge of the graph.
abbrev pub edge : Graph → Str → Str → Bool
edge g u v = has v (leaving g u)

-- What a result of `TopSort` says of the graph.
abbrev pub Meets : Graph → SortResult → Type 0
Meets g (order vs) = Topological (edge g) [] vs × ((v : Str) → has v vs ≡ has_key v g)
Meets g cycle = (u : Str) × Walk (edge g) u u
Meets g out_of_fuel = ⊥

-- A name of the second list that the first lacks, or there is none.
missing :
    (done ks : List Str)
    → ((v : Str) × (has v ks ≡ true) × (has v done ≡ false))
      ⊎ ((v : Str) → has v ks ≡ true → has v done ≡ true)
unfolding has
missing done [] = inr (λ v h. cc)
missing done (k ∷ ks) = elim (Bool-cases (has k done)) [
  | inl e ↦ elim (missing done ks) [
    | inl (v, h, f) ↦ inl (v, ground arith, f)
    | inr all ↦ inr (λ v h. ground (arith, all v, str_eq_iff k v))
  ]
  | inr e ↦ inl (k, ground (arith, str_eq_refl k), e)
]

has-without_entering :
    (g : Graph) (v : Str) (ks : List Str)
    → has v (without_entering g ks) ≡ (has v ks && is_empty (entering g v))
unfolding without_entering has
has-without_entering g v [] = refl
has-without_entering g v (k ∷ ks) = ground (arith, has-without_entering g v ks, str_eq_iff k v)

distinct-without_entering :
    (g : Graph) (ks : List Str) → Distinct ks → Distinct (without_entering g ks)
unfolding without_entering
distinct-without_entering g [] d = tt
distinct-without_entering g (k ∷ ks) d = elim (Bool-cases (is_empty (entering g k))) [
  | inl e ↦
      rw e (ground (arith, has-without_entering g k ks, d.0), distinct-without_entering g ks d.1)
  | inr e ↦ rw e (distinct-without_entering g ks d.1)
]

module _ (range : List Str → List Str) (laws : RangeLaws range) (g : Graph) (i : IsGraph g) where
  start_keys : (v : Str) → has v (keys (copy g)) ≡ has_key v g
  start_keys v = has_key-keys v (copy g) ∙ has_key-copy g i v

  start-Sorts : Sorts (λ v. has_key v g) (edge g) (keys (copy g)) (start range g)
  unfolding start has
  start-Sorts =
      let c = copy-IsGraph g i in
      record {
        keyed = refl;
        entered = λ u v. ground (arith, entering-copy g i u v);
        left = λ u v. ground (arith, leaving-copy g i u v);
        single = λ u. c.single_out u;
        queued = λ v h. ground (
          arith,
          has-without_entering (copy g) v (range (keys (copy g))),
          laws.visits v (keys (copy g)),
          start_keys v,
        );
        fresh = λ v h. refl;
        queue_nodes = λ v h. ground (
          arith,
          has-without_entering (copy g) v (range (keys (copy g))),
          laws.visits v (keys (copy g)),
          start_keys v,
        );
        sorted_nodes = λ v h. cc;
        distinct = distinct-without_entering (copy g) _ (laws.once _ c.distinct);
        ordered = tt;
      }

  enough : left_over (keys (copy g)) (start range g).sorted ≤ length g
  enough = omega (arith, left_over-le (keys (copy g)) (start range g).sorted, length-keys-copy g)

  -- The state at the end of the loop.
  last :
      (t : Sorting) × (rounds range (length g) (start range g) ≡ some t)
      × Sorts (λ v. has_key v g) (edge g) (keys (copy g)) t
      × (t.empty ≡ [])
  last =
      rounds-total range laws (λ v. has_key v g) (edge g) (λ u v. i.closed u v) (keys (copy g))
        start_keys (length g) (start range g) start-Sorts enough

  from_node : (u v : Str) → edge g u v ≡ true → has_key u g ≡ true
  from_node u v e = ground (arith, leaving_missing u v g)

  walk_from_node : {u v : Str} → Walk (edge g) u v → has_key u g ≡ true
  walk_from_node (one e) = from_node _ _ e
  walk_from_node (longer e p) = from_node _ _ e

  -- The last state, without the way to it.
  module _ (t : Sorting) (j : Sorts (λ v. has_key v g) (edge g) (keys (copy g)) t)
      (done : t.empty ≡ []) where
    -- A node without entering edges is sorted, and the other way round.
    entered_or_sorted :
        (v : Str) → has_key v g ≡ true → is_empty (entering t.graph v) ≡ has v t.sorted
    unfolding has
    entered_or_sorted v h = j.queued v h ∙ rw done refl

    all_sorted : no_edges t.graph ≡ true → (v : Str) → has v t.sorted ≡ has_key v g
    all_sorted h v =
        ground (arith, entered_or_sorted v, no_edges-entering t.graph v h, j.sorted_nodes v)

    unsorted : Str → Bool
    unsorted v = has_key v g && not (has v t.sorted)

    -- The first name of a list.
    abbrev first : List Str → Str
    first [] = []
    first (x ∷ xs) = x

    has-first : (xs : List Str) → is_empty xs ≡ false → has (first xs) xs ≡ true
    unfolding has
    has-first [] h = cc
    has-first (x ∷ xs) h = ground (arith, str_eq_refl x)

    leads_back :
        (v : Str)
        → unsorted v ≡ true
        → (edge g (first (entering t.graph v)) v ≡ true)
          × (unsorted (first (entering t.graph v)) ≡ true)
    unfolding unsorted
    leads_back v h =
        let u = first (entering t.graph v) in
        let e : has u (entering t.graph v) ≡ true =
          has-first _ (ground (arith, entered_or_sorted v)) in
        (ground (arith, j.entered u v), ground (arith, j.entered u v, from_node u v))

    -- If all nodes are sorted there are no edges left.
    no_edges_left :
        ((v : Str) → has_key v g ≡ true → has v t.sorted ≡ true) → no_edges t.graph ≡ true
    no_edges_left all =
        no_edges_of t.graph (rw j.keyed (copy-IsGraph g i).distinct)
          (λ v. empty_of_has _ (λ u. ground (arith, j.entered u v, from_node u v, all u)))
          (λ u. empty_of_has _ (λ v. ground (arith, j.left u v, from_node u v, all u)))

    edges_left : no_edges t.graph ≡ false → (v : Str) × (unsorted v ≡ true)
    unfolding unsorted
    edges_left h = elim (missing t.sorted (keys (copy g))) [
      | inl (v, hv, f) ↦ (v, ground (arith, start_keys v))
      | inr all ↦ absurd (clash (no_edges_left (λ v hv. all v (start_keys v ∙ hv))))
    ]
      where
        clash : no_edges t.graph ≡ true → ⊥
        clash e = cc

    finished : Meets g (outcome (some t))
    unfolding outcome unsorted
    finished = elim (Bool-cases (no_edges t.graph)) [
      | inl e ↦ rw e (j.ordered, all_sorted e)
      | inr e ↦
          let (v, h) = edges_left e in
          rw e
            (closed_walk (edge g) _ unsorted leads_back (keys (copy g)) (λ y k. known_open y k) v h)
    ]
      where
        known_open : (y : Str) → unsorted y ≡ true → has y (keys (copy g)) ≡ true
        known_open y k = ground (arith, start_keys y)

  pub result-Meets : Meets g (top_sort range g)
  unfolding top_sort
  result-Meets = let (t, e, j, done) = last in rw e (finished t j done)

  order_without_cycle :
      (vs : List Str) → top_sort range g ≡ order vs → (u : Str) → ¬ Walk (edge g) u u
  order_without_cycle vs e u p =
      let m : Meets g (order vs) = subst (Meets g) e result-Meets in
      no_closed_walk (edge g) vs m.0 u (m.1 u ∙ walk_from_node p) p

  by_result :
      (u : Str) × Walk (edge g) u u
      → (r : SortResult) → top_sort range g ≡ r
      → top_sort range g ≡ cycle
  by_result w (order vs) e = absurd (order_without_cycle vs e w.0 w.1)
  by_result w cycle e = e
  by_result w out_of_fuel e = absurd (subst (Meets g) e result-Meets)

  -- Whatever the order in which maps are visited, `TopSort` returns a list of all nodes where each
  -- stands once and behind the sources of the edges that enter it, or it reports a cycle and there is
  -- a node that can be reached from itself; it always ends. And it reports a cycle exactly when there
  -- is such a node.
  pub top_sort-Meets :
      Meets g (top_sort range g) × ((top_sort range g ≡ cycle) ↔ ((u : Str) × Walk (edge g) u u))
  top_sort-Meets = (
    result-Meets,
    (λ e. subst (Meets g) e result-Meets, λ w. by_result w (top_sort range g) refl),
  )
