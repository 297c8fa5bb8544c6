-- ===== src/Graph/Nodes.antt =====
-- What changes of single nodes do to the edges and the keys of a graph.
use test.Base.{
  ◌≡◌, refl, inl, inr, true, false, List, [], ◌∷◌, none, Str, str_eq, str_eq_iff, has, add, del,
  has-del, lookup, has_key, is_empty, if◌then◌else◌, arith, Bool-cases,
}
use test.Graph.{Node, Graph, update_node, keys}
use mathlib.Core.Option

-- No string twice.
abbrev pub Distinct : List Str → Type 0
Distinct [] = Unit
Distinct (k ∷ ks) = (has k ks ≡ false) × Distinct ks

pub has_of_empty : (k : Str) (ks : List Str) → is_empty ks ≡ true → has k ks ≡ false
unfolding has
has_of_empty k [] h = refl
has_of_empty k (j ∷ ks) h = cc

pub Distinct-add : (k : Str) (ks : List Str) → Distinct ks → Distinct (add k ks)
unfolding add
Distinct-add k ks h = elim (Bool-cases (has k ks)) [ inl e ↦ rw e h | inr e ↦ rw e (e, h) ]

pub Distinct-del : (k : Str) (ks : List Str) → Distinct ks → Distinct (del k ks)
unfolding del
Distinct-del k [] h = tt
Distinct-del k (j ∷ ks) h = elim (Bool-cases (str_eq j k)) [
  | inl e ↦ rw e (Distinct-del k ks h.1)
  | inr e ↦ rw e (ground (arith, has-del j k ks, h.0), Distinct-del k ks h.1)
]

pub lookup-update :
    (k j : Str) (f : Node → Node) (g : Graph)
    → lookup j (update_node k f g) ≡ (if str_eq k j then Option.map f (lookup j g) else lookup j g)
unfolding lookup update_node
lookup-update k j f [] = ground arith
lookup-update k j f ((i, n) ∷ g) =
    ground (arith, str_eq_iff k j, str_eq_iff i k, str_eq_iff i j, lookup-update k j f g)

pub keys-update : (k : Str) (f : Node → Node) (g : Graph) → keys (update_node k f g) ≡ keys g
unfolding keys update_node
keys-update k f [] = refl
keys-update k f ((i, n) ∷ g) = ground (arith, keys-update k f g)

pub has_key-keys : (k : Str) (g : Graph) → has k (keys g) ≡ has_key k g
unfolding has keys has_key
has_key-keys k [] = refl
has_key-keys k ((i, n) ∷ g) = ground (arith, has_key-keys k g)

pub lookup-missing : (k : Str) (g : Graph) → has_key k g ≡ false → lookup k g ≡ none
unfolding lookup has_key
lookup-missing k [] h = refl
lookup-missing k ((i, n) ∷ g) h = ground (arith, lookup-missing k g)
