-- ===== src/Graph/Edges.antt =====
-- Building and copying a graph: which edges it has afterwards.
use test.Base.{
  ◌≡◌, refl, sym, ◌∙◌, Bool, true, false, ◌&&◌, ◌||◌, List, [], ◌∷◌, Option, none, some, Str,
  str_eq, str_eq_iff, has, has-add, lookup, has_key, if◌then◌else◌, arith,
}
use mathlib.Core.Option
use test.Graph.{
  Node, Graph, out_of, in_of, update_node, leaving, entering, keys, link, link_all, copy_edges,
  add_edge_in, add_edge_out, add_edge, added,
}
use test.Graph.Nodes.{Distinct, Distinct-add, lookup-update, keys-update, has_key-keys}

-- What holds of every graph: the keys differ, an edge stands at both its ends, and these are nodes.
pub record IsGraph (g : Graph) : Type 0 where
  pub distinct : Distinct (keys g)
  pub mirrored : (u v : Str) → has u (entering g v) ≡ has v (leaving g u)
  pub closed : (u v : Str) → has v (leaving g u) ≡ true → has_key v g ≡ true
  pub single_out : (u : Str) → Distinct (leaving g u)

pub has_key-update :
    (k j : Str) (f : Node → Node) (g : Graph) → has_key j (update_node k f g) ≡ has_key j g
has_key-update k j f g =
    sym (has_key-keys j (update_node k f g)) ∙ (rw (keys-update k f g) (has_key-keys j g))

abbrev present : Option Node → Bool
present none = false
present (some n) = true

-- A node's edges after the two changes of `link`, by whether it is the one or the other end.
has_key-lookup : (k : Str) (g : Graph) → has_key k g ≡ present (lookup k g)
unfolding has_key lookup
has_key-lookup k [] = refl
has_key-lookup k ((i, n) ∷ g) = ground (arith, has_key-lookup k g)

module _ (from to : Str) where
  abbrev changed : Bool → Bool → Option Node → Option Node
  changed a b o =
      let o' = if b then Option.map (add_edge_out to) o else o in
      if a then Option.map (add_edge_in from) o' else o'

  lookup-link :
      (k : Str) (g : Graph)
      → lookup k (link from to g) ≡ changed (str_eq to k) (str_eq from k) (lookup k g)
  unfolding link
  lookup-link k g = rw lookup-update (rw lookup-update refl)

  in_changed :
      (u : Str) (a b : Bool) (o : Option Node)
      → has u (in_of (changed a b o)) ≡ (has u (in_of o) || (str_eq from u && a && present o))
  unfolding add_edge_in add_edge_out has
  in_changed u a b none = ground arith
  in_changed u a b (some n) = ground (arith, has-add u from n.edges_in)

  out_changed :
      (v : Str) (a b : Bool) (o : Option Node)
      → has v (out_of (changed a b o)) ≡ (has v (out_of o) || (b && str_eq to v && present o))
  unfolding add_edge_in add_edge_out has
  out_changed v a b none = ground arith
  out_changed v a b (some n) = ground (arith, has-add v to n.edges_out)

  single_changed :
      (a b : Bool) (o : Option Node) → Distinct (out_of o) → Distinct (out_of (changed a b o))
  unfolding add_edge_in add_edge_out
  single_changed true true none h = tt
  single_changed true false none h = tt
  single_changed false true none h = tt
  single_changed false false none h = tt
  single_changed true true (some n) h = Distinct-add to _ h
  single_changed true false (some n) h = h
  single_changed false true (some n) h = Distinct-add to _ h
  single_changed false false (some n) h = h

module _ (from to : Str) (g : Graph) where
  pub keys-link : keys (link from to g) ≡ keys g
  unfolding link
  keys-link = keys-update to _ _ ∙ keys-update from _ g

  pub has_key-link : (k : Str) → has_key k (link from to g) ≡ has_key k g
  has_key-link k = sym (has_key-keys k (link from to g)) ∙ rw keys-link (has_key-keys k g)

  pub entering-link :
      (u v : Str)
      → has u (entering (link from to g) v)
        ≡ (has u (entering g v) || (str_eq from u && str_eq to v && has_key v g))
  entering-link u v = rw (lookup-link, has_key-lookup) (in_changed from to u _ _ (lookup v g))

  pub leaving-link :
      (u v : Str)
      → has v (leaving (link from to g) u)
        ≡ (has v (leaving g u) || (str_eq from u && str_eq to v && has_key u g))
  leaving-link u v = rw (lookup-link, has_key-lookup) (out_changed from to v _ _ (lookup u g))

  pub single-link : (u : Str) → Distinct (leaving g u) → Distinct (leaving (link from to g) u)
  single-link u h = rw lookup-link (single_changed from to _ _ (lookup u g) h)

module _ (from : Str) where
  pub has_key-link_all :
      (ts : List Str) (g : Graph) (k : Str) → has_key k (link_all from ts g) ≡ has_key k g
  unfolding link_all
  has_key-link_all [] g k = refl
  has_key-link_all (t ∷ ts) g k = has_key-link_all ts (link from t g) k ∙ has_key-link from t g k

  pub keys-link_all : (ts : List Str) (g : Graph) → keys (link_all from ts g) ≡ keys g
  unfolding link_all
  keys-link_all [] g = refl
  keys-link_all (t ∷ ts) g = keys-link_all ts (link from t g) ∙ keys-link from t g

  entering-link_all :
      (ts : List Str) (g : Graph) (u v : Str)
      → has u (entering (link_all from ts g) v)
        ≡ (has u (entering g v) || (str_eq from u && has v ts && has_key v g))
  unfolding link_all has
  entering-link_all [] g u v = ground arith
  entering-link_all (t ∷ ts) g u v = ground (
    arith,
    entering-link_all ts (link from t g) u v,
    entering-link from t g u v,
    has_key-link from t g v,
  )

  leaving-link_all :
      (ts : List Str) (g : Graph) (u v : Str)
      → has v (leaving (link_all from ts g) u)
        ≡ (has v (leaving g u) || (str_eq from u && has v ts && has_key u g))
  unfolding link_all has
  leaving-link_all [] g u v = ground arith
  leaving-link_all (t ∷ ts) g u v = ground (
    arith,
    leaving-link_all ts (link from t g) u v,
    leaving-link from t g u v,
    has_key-link from t g u,
  )

  single-link_all :
      (ts : List Str) (g : Graph) (u : Str)
      → Distinct (leaving g u)
      → Distinct (leaving (link_all from ts g) u)
  unfolding link_all
  single-link_all [] g u h = h
  single-link_all (t ∷ ts) g u h = single-link_all ts (link from t g) u (single-link from t g u h)

-- `addEdge` between nodes of a graph gives a graph.
pub link-IsGraph :
    (from to : Str) (g : Graph)
    → IsGraph g
    → has_key from g ≡ true
    → has_key to g ≡ true
    → IsGraph (link from to g)
link-IsGraph from to g i hf ht = record {
  distinct = rw keys-link i.distinct;
  mirrored = λ u v. ground (
    arith,
    entering-link from to g u v,
    leaving-link from to g u v,
    i.mirrored u v,
    str_eq_iff from u,
    str_eq_iff to v,
  );
  closed = λ u v h.
      ground (
        arith,
        leaving-link from to g u v,
        has_key-link from to g v,
        i.closed u v,
        str_eq_iff to v,
      );
  single_out = λ u. single-link from to g u (i.single_out u);
}

pub added_nodes :
    (from to : Str) (g g' : Graph)
    → add_edge from to g ≡ added g'
    → (g' ≡ link from to g) × (has_key from g ≡ true) × (has_key to g ≡ true)
unfolding add_edge
added_nodes from to g g' h = ground arith

-- `AddEdge` gives a graph again.
pub add_edge-IsGraph :
    (from to : Str) (g g' : Graph) → IsGraph g → add_edge from to g ≡ added g' → IsGraph g'
add_edge-IsGraph from to g g' i h =
    let (e, hf, ht) = added_nodes from to g g' h in rw e (link-IsGraph from to g i hf ht)

-- The edges of a map of nodes, whichever entry they stand in.
abbrev pub has_edge : Str → Str → Graph → Bool
has_edge u v [] = false
has_edge u v ((k, n) ∷ g) = (str_eq k u && has v n.edges_out) || has_edge u v g

pub has_edge_missing : (u v : Str) (g : Graph) → has u (keys g) ≡ false → has_edge u v g ≡ false
unfolding keys has
has_edge_missing u v [] h = refl
has_edge_missing u v ((k, n) ∷ g) h = ground (arith, has_edge_missing u v g)

pub has_edge-leaving :
    (u v : Str) (g : Graph) → Distinct (keys g) → has_edge u v g ≡ has v (leaving g u)
unfolding keys lookup has
has_edge-leaving u v [] h = refl
has_edge-leaving u v ((k, n) ∷ g) h =
    ground (arith, has_edge-leaving u v g h.1, has_edge_missing u v g, str_eq_iff k u, h.0)

pub keys-copy_edges : (m g : Graph) → keys (copy_edges m g) ≡ keys g
unfolding copy_edges
keys-copy_edges [] g = refl
keys-copy_edges ((k, n) ∷ m) g = keys-copy_edges m _ ∙ keys-link_all k n.edges_out g

pub entering-copy_edges :
    (m g : Graph) (u v : Str)
    → has u (entering (copy_edges m g) v)
      ≡ (has u (entering g v) || (has_edge u v m && has_key v g))
unfolding copy_edges
entering-copy_edges [] g u v = ground arith
entering-copy_edges ((k, n) ∷ m) g u v = ground (
  arith,
  entering-copy_edges m (link_all k n.edges_out g) u v,
  entering-link_all k n.edges_out g u v,
  has_key-link_all k n.edges_out g v,
)

pub leaving-copy_edges :
    (m g : Graph) (u v : Str)
    → has v (leaving (copy_edges m g) u) ≡ (has v (leaving g u) || (has_edge u v m && has_key u g))
unfolding copy_edges
leaving-copy_edges [] g u v = ground arith
leaving-copy_edges ((k, n) ∷ m) g u v = ground (
  arith,
  leaving-copy_edges m (link_all k n.edges_out g) u v,
  leaving-link_all k n.edges_out g u v,
  has_key-link_all k n.edges_out g u,
)

pub single-copy_edges :
    (m g : Graph) (u : Str) → Distinct (leaving g u) → Distinct (leaving (copy_edges m g) u)
unfolding copy_edges
single-copy_edges [] g u h = h
single-copy_edges ((k, n) ∷ m) g u h = single-copy_edges m _ u (single-link_all k n.edges_out g u h)
