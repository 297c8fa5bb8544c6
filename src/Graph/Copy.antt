-- ===== src/Graph/Copy.antt =====
-- A new graph has no edges, and a copy has the nodes and the edges of the original.
use test.Base.{
  ◌≤◌, ◌+◌, suc, length, ◌≡◌, refl, sym, ap, ◌∙◌, false, ◌||◌, List, [], ◌∷◌, Str, str_eq,
  str_eq_iff, eq_of_str_eq, inl, inr, has, lookup, has_key, arith, Bool-cases, lookup-insert,
}
use test.Graph.{Node, Graph, leaving, entering, keys, add_node, add_nodes, new_graph, copy}
use test.Graph.Nodes.{Distinct, has_key-keys, lookup-missing}
use test.Graph.Edges.{
  IsGraph, has_edge-leaving, keys-copy_edges, entering-copy_edges, leaving-copy_edges,
  single-copy_edges,
}

abbrev blank : Node
blank = record { edges_out = []; edges_in = [] }

has_key-add_node : (j k : Str) (g : Graph) → has_key k (add_node j g) ≡ (str_eq j k || has_key k g)
unfolding add_node has_key
has_key-add_node j k [] = refl
has_key-add_node j k ((i, n) ∷ g) =
    ground (arith, has_key-add_node j k g, str_eq_iff i j, str_eq_iff i k, str_eq_iff j k)

has_key-add_nodes :
    (ks : List Str) (k : Str) (g : Graph) → has_key k (add_nodes ks g) ≡ (has k ks || has_key k g)
unfolding add_nodes has
has_key-add_nodes [] k g = refl
has_key-add_nodes (j ∷ ks) k g =
    ground (arith, has_key-add_nodes ks k (add_node j g), has_key-add_node j k g)

has-keys-add_node :
    (j k : Str) (g : Graph) → has k (keys (add_node j g)) ≡ (str_eq j k || has k (keys g))
has-keys-add_node j k g = rw has_key-keys (rw has_key-keys (has_key-add_node j k g))

distinct-add_node : (k : Str) (g : Graph) → Distinct (keys g) → Distinct (keys (add_node k g))
unfolding add_node keys has
distinct-add_node k [] h = (refl, tt)
distinct-add_node k ((i, n) ∷ g) h = elim (Bool-cases (str_eq i k)) [
  | inl e ↦ rw e (rw (← eq_of_str_eq i k e) h.0, h.1)
  | inr e ↦ rw e (
    ground (arith, has-keys-add_node k i g, str_eq_iff k i, str_eq_iff i k, h.0),
    distinct-add_node k g h.1,
  )
]

abbrev Edgeless : Graph → Type 0
Edgeless g = (k : Str) → (leaving g k ≡ []) × (entering g k ≡ [])

Edgeless-add_node : (j : Str) (g : Graph) → Edgeless g → Edgeless (add_node j g)
unfolding add_node
Edgeless-add_node j g h k = elim (Bool-cases (str_eq j k)) [
  | inl e ↦ (rw lookup-insert (rw e refl), rw lookup-insert (rw e refl))
  | inr e ↦ (rw lookup-insert (rw e ((h k).0)), rw lookup-insert (rw e ((h k).1)))
]

Edgeless-add_nodes : (ks : List Str) (g : Graph) → Edgeless g → Edgeless (add_nodes ks g)
unfolding add_nodes
Edgeless-add_nodes [] g h = h
Edgeless-add_nodes (j ∷ ks) g h = Edgeless-add_nodes ks _ (Edgeless-add_node j g h)

distinct-add_nodes :
    (ks : List Str) (g : Graph) → Distinct (keys g) → Distinct (keys (add_nodes ks g))
unfolding add_nodes
distinct-add_nodes [] g h = h
distinct-add_nodes (j ∷ ks) g h = distinct-add_nodes ks _ (distinct-add_node j g h)

module _ (ks : List Str) where
  pub Edgeless-new_graph : Edgeless (new_graph ks)
  unfolding new_graph lookup
  Edgeless-new_graph = Edgeless-add_nodes ks [] (λ k. (refl, refl))

  pub leaving-new_graph : (k : Str) → leaving (new_graph ks) k ≡ []
  leaving-new_graph k = (Edgeless-new_graph k).0

  pub has_key-new_graph : (k : Str) → has_key k (new_graph ks) ≡ has k ks
  unfolding new_graph has_key
  has_key-new_graph k = ground (arith, has_key-add_nodes ks k [])

  distinct_new : Distinct (keys (new_graph ks))
  unfolding new_graph keys
  distinct_new = distinct-add_nodes ks [] tt

  pub new_graph-IsGraph : IsGraph (new_graph ks)
  unfolding has
  new_graph-IsGraph = record {
    distinct = distinct_new;
    mirrored = λ u v. rw ((Edgeless-new_graph u).0) (rw ((Edgeless-new_graph v).1) refl);
    closed = λ u v h. cc ((Edgeless-new_graph u).0);
    single_out = λ u. rw ((Edgeless-new_graph u).0) tt;
  }

-- Only nodes have edges.
pub leaving_missing : (u v : Str) (g : Graph) → has_key u g ≡ false → has v (leaving g u) ≡ false
unfolding has
leaving_missing u v g h = rw (lookup-missing u g h) refl

module _ (g : Graph) (i : IsGraph g) where
  pub has_key-copy : (k : Str) → has_key k (copy g) ≡ has_key k g
  unfolding copy
  has_key-copy k =
      sym (has_key-keys k _)
      ∙ rw keys-copy_edges (has_key-keys k _ ∙ has_key-new_graph (keys g) k ∙ has_key-keys k g)

  pub leaving-copy : (u v : Str) → has v (leaving (copy g) u) ≡ has v (leaving g u)
  unfolding copy has
  leaving-copy u v = ground (
    arith,
    leaving-copy_edges g (new_graph (keys g)) u v,
    ap (has v) ((Edgeless-new_graph (keys g) u).0),
    has_edge-leaving u v g i.distinct,
    has_key-new_graph (keys g) u,
    has_key-keys u g,
    leaving_missing u v g,
  )

  pub entering-copy : (u v : Str) → has u (entering (copy g) v) ≡ has v (leaving g u)
  unfolding copy has
  entering-copy u v = ground (
    arith,
    entering-copy_edges g (new_graph (keys g)) u v,
    ap (has u) ((Edgeless-new_graph (keys g) v).1),
    has_edge-leaving u v g i.distinct,
    has_key-new_graph (keys g) v,
    has_key-keys v g,
    i.closed u v,
  )

  -- A copy is a graph with the nodes and the edges of the original.
  pub copy-IsGraph : IsGraph (copy g)
  unfolding copy
  copy-IsGraph = record {
    distinct = rw keys-copy_edges (distinct_new (keys g));
    mirrored = λ u v. entering-copy u v ∙ sym (leaving-copy u v);
    closed = λ u v h. has_key-copy v ∙ i.closed u v (sym (leaving-copy u v) ∙ h);
    single_out = λ u. single-copy_edges g _ u (rw ((Edgeless-new_graph (keys g) u).0) tt);
  }

pub length-keys : (g : Graph) → length (keys g) ≡ length g
unfolding keys
length-keys [] = refl
length-keys ((k, n) ∷ g) = ap suc (length-keys g)

length-add_node : (k : Str) (g : Graph) → length (add_node k g) ≤ suc (length g)
unfolding add_node
length-add_node k [] = omega arith
length-add_node k ((j, n) ∷ g) = ground (arith, length-add_node k g)

length-add_nodes : (ks : List Str) (g : Graph) → length (add_nodes ks g) ≤ length g + length ks
unfolding add_nodes
length-add_nodes [] g = omega arith
length-add_nodes (k ∷ ks) g = omega (arith, length-add_nodes ks (add_node k g), length-add_node k g)

pub length-keys-copy : (g : Graph) → length (keys (copy g)) ≤ length g
unfolding copy new_graph
length-keys-copy g = rw keys-copy_edges (
    omega (arith, length-keys (add_nodes (keys g) []), length-add_nodes (keys g) [], length-keys g))
