-- ===== src/Graph/Rounds.antt =====
-- The invariant of the topological sort, and that a round keeps it.
use test.Base.{
  ◌≡◌, refl, ap, subst, ◌∙◌, inl, inr, Bool, true, false, not, ◌&&◌, ◌||◌, List, [], ◌∷◌, ◌++◌,
  Option, none, some, Str, str_eq, str_eq_iff, str_eq_refl, has, has-append, lookup, is_empty,
  if◌then◌else◌, arith, Bool-cases,
}
use mathlib.Core.Option
use test.Graph.{
  Node, Graph, Sorting, out_of, in_of, leaving, entering, keys, relax, round, clear_edges_out,
}
use test.Graph.Nodes.{Distinct, lookup-update, keys-update, has_of_empty}
use test.Graph.Relax.{
  keys-relax, leaving-relax, entering-relax, entering-relax_other, has-relax, Distinct-relax,
}
use test.Graph.Order.{Topological, Topological-snoc}

-- What Go's language says of `range`: each key of the map is visited once, in some order.
pub record RangeLaws (range : List Str → List Str) : Type 0 where
  pub visits : (k : Str) (ks : List Str) → has k (range ks) ≡ has k ks
  pub once : (ks : List Str) → Distinct ks → Distinct (range ks)

-- `node` and `edge`: the nodes and the edges at the start.
pub record Sorts (node : Str → Bool) (edge : Str → Str → Bool) (ks : List Str) (s : Sorting)
    : Type 0 where
  pub keyed : keys s.graph ≡ ks
  pub entered : (u v : Str) → has u (entering s.graph v) ≡ (edge u v && not (has u s.sorted))
  pub left : (u v : Str) → has v (leaving s.graph u) ≡ (edge u v && not (has u s.sorted))
  pub single : (u : Str) → Distinct (leaving s.graph u)
  pub queued :
      (v : Str) → node v ≡ true → is_empty (entering s.graph v) ≡ (has v s.empty || has v s.sorted)
  pub fresh : (v : Str) → has v s.empty ≡ true → has v s.sorted ≡ false
  pub queue_nodes : (v : Str) → has v s.empty ≡ true → node v ≡ true
  pub sorted_nodes : (v : Str) → has v s.sorted ≡ true → node v ≡ true
  pub distinct : Distinct s.empty
  pub ordered : Topological edge [] s.sorted

-- The edges of the node that was taken are dropped.
in_cleared :
    (b : Bool) (o : Option Node) → in_of (if b then Option.map clear_edges_out o else o) ≡ in_of o
unfolding clear_edges_out
in_cleared true none = refl
in_cleared false none = refl
in_cleared true (some n) = refl
in_cleared false (some n) = refl

out_cleared :
    (b : Bool) (o : Option Node)
    → out_of (if b then Option.map clear_edges_out o else o) ≡ (if b then [] else out_of o)
unfolding clear_edges_out
out_cleared true none = refl
out_cleared false none = refl
out_cleared true (some n) = refl
out_cleared false (some n) = refl

module _ (range : List Str → List Str) (laws : RangeLaws range) (node : Str → Bool)
    (edge : Str → Str → Bool) (ends : (u v : Str) → edge u v ≡ true → node v ≡ true)
    (ks : List Str) where
  module _ (n : Str) (q : List Str) (s : Sorting) (front : s.empty ≡ n ∷ q)
      (i : Sorts node edge ks s) where
    -- The targets of the round, as the loop visits them.
    abbrev targets : List Str
    targets = range (leaving s.graph n)

    abbrev after : Graph × List Str
    after = relax n targets (s.graph, q)

    taken : has n s.empty ≡ true
    unfolding has
    taken = rw front (ground (arith, str_eq_refl n))

    unsorted : has n s.sorted ≡ false
    unsorted = i.fresh n taken

    has-targets : (v : Str) → has v targets ≡ edge n v
    has-targets v = laws.visits v _ ∙ i.left n v ∙ ground (arith, unsorted)

    single_targets : Distinct targets
    single_targets = laws.once _ (i.single n)

    -- A node in the queue, or sorted, has no edge from the one that was taken.
    no_edge_to :
        (v : Str) → node v ≡ true → (has v s.empty || has v s.sorted) ≡ true → edge n v ≡ false
    no_edge_to v hn h =
        let gone = has_of_empty n (entering s.graph v) (i.queued v hn ∙ h) in
        ground (arith, i.entered n v, gone, unsorted)

    sources_sorted : (u : Str) → edge u n ≡ true → has u s.sorted ≡ true
    sources_sorted u e =
        let gone =
          has_of_empty u (entering s.graph n)
            (i.queued n (i.queue_nodes n taken) ∙ ground (arith, taken)) in
        ground (arith, i.entered u n, gone)

    keyed_round : keys (round range n q s).graph ≡ ks
    unfolding round
    keyed_round = keys-update n _ _ ∙ keys-relax n targets s.graph q ∙ i.keyed

    entering-round : (v : Str) → entering (round range n q s).graph v ≡ entering (after.0) v
    unfolding round
    entering-round v = rw lookup-update (in_cleared _ (lookup v (after.0)))

    leaving-round :
        (v : Str)
        → leaving (round range n q s).graph v ≡ (if str_eq n v then [] else leaving s.graph v)
    unfolding round
    leaving-round v = rw lookup-update (out_cleared _ (lookup v (after.0)) ∙ rw leaving-relax refl)

    entered_round :
        (u v : Str)
        → has u (entering (round range n q s).graph v)
          ≡ (edge u v && not (has u (s.sorted ++ n ∷ [])))
    unfolding has
    entered_round u v =
        rw (entering-round, has-append)
          (ground (
            arith,
            entering-relax n targets s.graph q u v,
            has-targets v,
            i.entered u v,
            str_eq_iff n u,
          ))

    left_round :
        (u v : Str)
        → has v (leaving (round range n q s).graph u)
          ≡ (edge u v && not (has u (s.sorted ++ n ∷ [])))
    unfolding has
    left_round u v =
        rw (leaving-round, has-append)
          (elim (Bool-cases (str_eq n u)) [
            | inl e ↦ rw e (ground arith)
            | inr e ↦ rw e (ground (arith, i.left u v))
          ])

    single_round : (u : Str) → Distinct (leaving (round range n q s).graph u)
    single_round u =
        rw leaving-round
          (elim (Bool-cases (str_eq n u)) [ inl e ↦ rw e tt | inr e ↦ rw e (i.single u) ])

    has-empty_round :
        (v : Str)
        → has v (round range n q s).empty
          ≡ (has v q || (edge n v && is_empty (entering (round range n q s).graph v)))
    has-empty_round v =
        rw entering-round
          (unfold round in has-relax n targets s.graph q v single_targets ∙ rw has-targets refl)

    in_queue : (v : Str) → has v s.empty ≡ (str_eq n v || has v q)
    unfolding has
    in_queue v = rw front refl

    in_sorted : (v : Str) → has v (s.sorted ++ n ∷ []) ≡ (has v s.sorted || str_eq n v)
    unfolding has
    in_sorted v = rw has-append (ground arith)

    tail_distinct : (has n q ≡ false) × Distinct q
    tail_distinct = subst Distinct front i.distinct

    entering_kept :
        (v : Str)
        → edge n v ≡ false
        → is_empty (entering (round range n q s).graph v) ≡ is_empty (entering s.graph v)
    entering_kept v h =
        rw entering-round
          (ap is_empty (entering-relax_other n targets s.graph q v (has-targets v ∙ h)))

    queued_round :
        (v : Str)
        → node v ≡ true
        → is_empty (entering (round range n q s).graph v)
          ≡ (has v (round range n q s).empty || has v (s.sorted ++ n ∷ []))
    queued_round v hn = ground (
      arith,
      has-empty_round v,
      entering_kept v,
      i.queued v hn,
      in_queue v,
      in_sorted v,
      no_edge_to v hn,
    )

    apart_from_sorted : (v : Str) → edge n v ≡ true → (has v s.empty || has v s.sorted) ≡ false
    apart_from_sorted v e = ground (arith, no_edge_to v (ends n v e))

    fresh_round :
        (v : Str) → has v (round range n q s).empty ≡ true → has v (s.sorted ++ n ∷ []) ≡ false
    fresh_round v h = ground (
      arith,
      has-empty_round v,
      in_queue v,
      in_sorted v,
      i.fresh v,
      apart_from_sorted v,
      tail_distinct.0,
      str_eq_iff n v,
    )

    queue_nodes_round : (v : Str) → has v (round range n q s).empty ≡ true → node v ≡ true
    queue_nodes_round v h = ground (arith, has-empty_round v, in_queue v, i.queue_nodes v, ends n v)

    sorted_nodes_round : (v : Str) → has v (s.sorted ++ n ∷ []) ≡ true → node v ≡ true
    sorted_nodes_round v h =
        ground (arith, in_sorted v, i.sorted_nodes v, i.queue_nodes n taken, str_eq_iff n v)

    distinct_round : Distinct (round range n q s).empty
    unfolding round
    distinct_round =
        Distinct-relax n targets s.graph q single_targets tail_distinct.1
          (λ v h. ground (arith, has-targets v, in_queue v, apart_from_sorted v))

    -- Every round keeps the invariant.
    pub round-Sorts : Sorts node edge ks (round range n q s)
    unfolding round has
    round-Sorts = record {
      keyed = keyed_round;
      entered = entered_round;
      left = left_round;
      single = single_round;
      queued = queued_round;
      fresh = fresh_round;
      queue_nodes = queue_nodes_round;
      sorted_nodes = sorted_nodes_round;
      distinct = distinct_round;
      ordered =
          Topological-snoc edge n [] s.sorted i.ordered (λ u e. sources_sorted u e) refl unsorted;
    }
