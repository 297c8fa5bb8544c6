-- ===== src/Graph.antt =====
-- graph/graph.go: the directed graph of dependencies and its topological sort.
pub mod Nodes
pub mod Edges
pub mod Copy
pub mod Relax
pub mod Order
pub mod Rounds
pub mod Finish
pub mod Cycles
pub mod Correct
mod Samples
use test.Base.{
  ℕ, zero, suc, Bool, true, false, not, ◌&&◌, ◌||◌, List, [], ◌∷◌, ◌++◌, Option, none, some, Str,
  str_eq, add, del, Dict, lookup, insert, has_key, is_empty, length, if◌then◌else◌,
}

-- A pointer to a node is the node's name, and so is its value.
pub record Node : Type 0 where
  pub edges_out : List Str
  pub edges_in : List Str

abbrev pub Graph : Type 0
Graph = Dict Node

unfoldable pub add_edge_in : Str → Node → Node
unfolding add
add_edge_in k n = record n { edges_in = add k n.edges_in }

unfoldable pub add_edge_out : Str → Node → Node
unfolding add
add_edge_out k n = record n { edges_out = add k n.edges_out }

unfoldable pub remove_edge_in : Str → Node → Node
remove_edge_in k n = record n { edges_in = del k n.edges_in }

unfoldable pub remove_edge_out : Str → Node → Node
remove_edge_out k n = record n { edges_out = del k n.edges_out }

-- `node.EdgesOut = nil`
unfoldable pub clear_edges_out : Node → Node
clear_edges_out n = record n { edges_out = [] }

-- A change of the node that a pointer leads to.
unfoldable pub update_node : Str → (Node → Node) → Graph → Graph
update_node k f [] = []
update_node k f ((j, n) ∷ g) = if str_eq j k then (j, f n) ∷ g else (j, n) ∷ update_node k f g

abbrev pub out_of : Option Node → List Str
out_of none = []
out_of (some n) = n.edges_out

abbrev pub in_of : Option Node → List Str
in_of none = []
in_of (some n) = n.edges_in

-- The names behind a node's edges.
abbrev pub leaving : Graph → Str → List Str
leaving g k = out_of (lookup k g)

abbrev pub entering : Graph → Str → List Str
entering g k = in_of (lookup k g)

unfoldable pub keys : Graph → List Str
keys [] = []
keys ((k, n) ∷ g) = k ∷ keys g

unfoldable pub add_node : Str → Graph → Graph
unfolding insert
add_node k g = insert k (record { edges_out = []; edges_in = [] }) g

unfoldable pub add_nodes : List Str → Graph → Graph
unfolding add_node
add_nodes [] g = g
add_nodes (k ∷ ks) g = add_nodes ks (add_node k g)

unfoldable pub new_graph : List Str → Graph
unfolding add_nodes
new_graph ks = add_nodes ks []

-- `addEdge`, for nodes of the graph.
unfoldable pub link : Str → Str → Graph → Graph
unfolding update_node add_edge_in add_edge_out
link from to g = update_node to (add_edge_in from) (update_node from (add_edge_out to) g)

pub data EdgeResult : Type 0 where
  added : Graph → EdgeResult
  same_node from_missing to_missing : EdgeResult

unfoldable pub add_edge : Str → Str → Graph → EdgeResult
unfolding has_key link
add_edge from to g =
    if str_eq from to
    then same_node
    else if not (has_key from g)
    then from_missing
    else if not (has_key to g)
    then to_missing
    else added (link from to g)

unfoldable pub link_all : Str → List Str → Graph → Graph
unfolding link
link_all from [] g = g
link_all from (t ∷ ts) g = link_all from ts (link from t g)

unfoldable pub copy_edges : Graph → Graph → Graph
unfolding link_all
copy_edges [] other = other
copy_edges ((k, n) ∷ g) other = copy_edges g (link_all k n.edges_out other)

unfoldable pub copy : Graph → Graph
unfolding copy_edges new_graph keys
copy g = copy_edges g (new_graph (keys g))

-- The variables of `TopSort`.
pub record Sorting : Type 0 where
  pub graph : Graph
  pub empty : List Str
  pub sorted : List Str

pub data SortResult : Type 0 where
  order : List Str → SortResult
  cycle out_of_fuel : SortResult

unfoldable pub without_entering : Graph → List Str → List Str
unfolding lookup
without_entering g [] = []
without_entering g (k ∷ ks) =
    let rest = without_entering g ks in if is_empty (entering g k) then k ∷ rest else rest

-- The inner loop of a round, over the nodes behind the edges that leave `node`.
unfoldable pub relax : Str → List Str → Graph × List Str → Graph × List Str
unfolding update_node remove_edge_in lookup
relax node [] s = s
relax node (o ∷ os) (g, q) =
    let g' = update_node o (remove_edge_in node) g in
    relax node os (g', if is_empty (entering g' o) then q ++ o ∷ [] else q)

unfoldable pub no_edges : Graph → Bool
no_edges [] = true
no_edges ((k, n) ∷ g) = is_empty n.edges_in && is_empty n.edges_out && no_edges g

-- What is returned after the loop, or that the fuel ran out.
unfoldable pub outcome : Option Sorting → SortResult
unfolding no_edges
outcome none = out_of_fuel
outcome (some s) = if no_edges s.graph then order s.sorted else cycle

-- `range`: the order in which the keys of a map are visited, where the result depends on it.
module _ (range : List Str → List Str) where
  unfoldable pub start : Graph → Sorting
  unfolding copy without_entering keys
  start g = record {
    graph = copy g;
    empty = without_entering (copy g) (range (keys (copy g)));
    sorted = [];
  }

  -- A round, after `node` was taken from the head of the queue.
  unfoldable pub round : Str → List Str → Sorting → Sorting
  unfolding relax update_node clear_edges_out
  round node queue s =
      let (g, q) = relax node (range (leaving s.graph node)) (s.graph, queue) in
      record {
        graph = update_node node clear_edges_out g;
        empty = q;
        sorted = s.sorted ++ node ∷ [];
      }

  unfoldable pub rounds : ℕ → Sorting → Option Sorting
  unfolding round
  rounds zero s = elim s.empty [ [] ↦ some s | _ ∷ _ ↦ none ]
  rounds (suc fuel) s = elim s.empty [ [] ↦ some s | k ∷ q ↦ rounds fuel (round k q s) ]

  unfoldable pub top_sort : Graph → SortResult
  unfolding start rounds outcome
  top_sort g = outcome (rounds (length g) (start g))
