-- ===== src/Graph/Samples.antt =====
-- The topological sort on small graphs.
use test.Base.{◌≡◌, ◌↔◌, refl, Str, codes, str_eq, has, List, [], ◌∷◌, del}
use test.Graph.{Graph, added, same_node, new_graph, add_edge, link, top_sort, order, cycle}
use test.Graph.Edges.{IsGraph, add_edge-IsGraph}
use test.Graph.Copy.{new_graph-IsGraph}
use test.Graph.Rounds.{RangeLaws}
use test.Graph.Cycles.{Walk}
use test.Graph.Correct.{edge, Meets, top_sort-Meets}

-- A map that is visited in the order of its list.
abbrev in_order : List Str → List Str
in_order ks = ks

in_order_laws : RangeLaws in_order
in_order_laws = record { visits = λ k ks. refl; once = λ ks d. d }

abbrev a : Str
a = codes "boot"

abbrev b : Str
b = codes "locks"

abbrev c : Str
c = codes "threads"

abbrev nodes : Graph
nodes = new_graph (a ∷ b ∷ c ∷ [])

abbrev one_edge : Graph
one_edge = link b a nodes

abbrev two_edges : Graph
two_edges = link c b one_edge

-- The third edge closes a cycle.
abbrev three_edges : Graph
three_edges = link a c two_edges

added_one : add_edge b a nodes ≡ added one_edge
unfolding add_edge new_graph str_eq
added_one = refl

added_two : add_edge c b one_edge ≡ added two_edges
unfolding add_edge link new_graph str_eq
added_two = refl

added_three : add_edge a c two_edges ≡ added three_edges
unfolding add_edge link new_graph str_eq
added_three = refl

refused : add_edge a a nodes ≡ same_node
unfolding add_edge str_eq
refused = refl

two_edges-IsGraph : IsGraph two_edges
two_edges-IsGraph =
    add_edge-IsGraph c b one_edge two_edges
      (add_edge-IsGraph b a nodes one_edge (new_graph-IsGraph _) added_one) added_two

three_edges-IsGraph : IsGraph three_edges
three_edges-IsGraph = add_edge-IsGraph a c two_edges three_edges two_edges-IsGraph added_three

sorted : top_sort in_order two_edges ≡ order (c ∷ b ∷ a ∷ [])
unfolding top_sort link new_graph str_eq has del
sorted = refl

in_circle : top_sort in_order three_edges ≡ cycle
unfolding top_sort link new_graph str_eq has del
in_circle = refl

top_sort-Meets_example :
    Meets three_edges (top_sort in_order three_edges)
    × ((top_sort in_order three_edges ≡ cycle) ↔ ((u : Str) × Walk (edge three_edges) u u))
top_sort-Meets_example = top_sort-Meets in_order in_order_laws three_edges three_edges-IsGraph
