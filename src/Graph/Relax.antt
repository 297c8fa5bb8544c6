-- ===== src/Graph/Relax.antt =====
-- The inner loop of the topological sort: the edges that leave one node are removed at their ends.
use test.Base.{
  ◌≡◌, refl, ap, ◌∙◌, inl, inr, Bool, true, false, not, ◌&&◌, ◌||◌, List, [], ◌∷◌, ◌++◌, Option,
  none, some, Str, str_eq, str_eq_iff, eq_of_str_eq, has, has-del, has-append, lookup, is_empty,
  if◌then◌else◌, arith, Bool-cases,
}
use mathlib.Core.Option
use test.Graph.{
  Node, Graph, out_of, in_of, leaving, entering, keys, update_node, remove_edge_in, relax,
}
use test.Graph.Nodes.{Distinct, lookup-update, keys-update}

pub Distinct-snoc :
    (k : Str) (ks : List Str) → Distinct ks → has k ks ≡ false → Distinct (ks ++ k ∷ [])
unfolding has
Distinct-snoc k [] d h = (refl, tt)
Distinct-snoc k (j ∷ ks) d h = (
  ground (arith, has-append j ks (k ∷ []), d.0, str_eq_iff k j, str_eq_iff j k),
  Distinct-snoc k ks d.1 (ground arith),
)

-- A name that joins the queue on a condition.
module _ (o : Str) (q : List Str) where
  abbrev pushed : Bool → List Str
  pushed b = if b then q ++ o ∷ [] else q

  has-pushed : (v : Str) (b : Bool) → has v (pushed b) ≡ (has v q || (b && str_eq o v))
  unfolding has
  has-pushed v true = ground (arith, has-append v q (o ∷ []))
  has-pushed v false = ground arith

  Distinct-pushed : (b : Bool) → Distinct q → has o q ≡ false → Distinct (pushed b)
  Distinct-pushed true d h = Distinct-snoc o q d h
  Distinct-pushed false d h = d

  has-pushed_later :
      (v : Str) (b later e : Bool)
      → (str_eq o v ≡ true → (later ≡ false) × (e ≡ b))
      → (has v (pushed b) || (later && e)) ≡ (has v q || ((str_eq o v || later) && e))
  has-pushed_later v b later e h = elim (Bool-cases (str_eq o v)) [
    | inl s ↦ ground (arith, has-pushed v b, h s)
    | inr s ↦ ground (arith, has-pushed v b)
  ]

-- `n`: the node that was taken from the queue.
module _ (n : Str) where
  in_removed :
      (u : Str) (b : Bool) (o : Option Node)
      → has u (in_of (if b then Option.map (remove_edge_in n) o else o))
        ≡ (has u (in_of o) && not (b && str_eq n u))
  unfolding remove_edge_in has
  in_removed u b none = ground arith
  in_removed u b (some m) = ground (arith, has-del u n m.edges_in)

  out_removed :
      (b : Bool) (o : Option Node)
      → out_of (if b then Option.map (remove_edge_in n) o else o) ≡ out_of o
  unfolding remove_edge_in
  out_removed true none = refl
  out_removed false none = refl
  out_removed true (some m) = refl
  out_removed false (some m) = refl

  entering-removed :
      (o : Str) (g : Graph) (u v : Str)
      → has u (entering (update_node o (remove_edge_in n) g) v)
        ≡ (has u (entering g v) && not (str_eq o v && str_eq n u))
  entering-removed o g u v = rw lookup-update (in_removed u _ (lookup v g))

  entering_other :
      (o : Str) (g : Graph) (v : Str)
      → str_eq o v ≡ false
      → entering (update_node o (remove_edge_in n) g) v ≡ entering g v
  entering_other o g v h = rw lookup-update (rw h refl)

  leaving-removed :
      (o : Str) (g : Graph) (v : Str) → leaving (update_node o (remove_edge_in n) g) v ≡ leaving g v
  leaving-removed o g v = rw lookup-update (out_removed _ (lookup v g))

  pub keys-relax :
      (os : List Str) (g : Graph) (q : List Str) → keys ((relax n os (g, q)).0) ≡ keys g
  unfolding relax
  keys-relax [] g q = refl
  keys-relax (o ∷ os) g q = keys-relax os _ _ ∙ keys-update o _ g

  pub leaving-relax :
      (os : List Str) (g : Graph) (q : List Str) (v : Str)
      → leaving ((relax n os (g, q)).0) v ≡ leaving g v
  unfolding relax
  leaving-relax [] g q v = refl
  leaving-relax (o ∷ os) g q v = leaving-relax os _ _ v ∙ leaving-removed o g v

  pub entering-relax :
      (os : List Str) (g : Graph) (q : List Str) (u v : Str)
      → has u (entering ((relax n os (g, q)).0) v)
        ≡ (has u (entering g v) && not (has v os && str_eq n u))
  unfolding relax has
  entering-relax [] g q u v = ground arith
  entering-relax (o ∷ os) g q u v =
      entering-relax os _ _ u v ∙ ground (arith, entering-removed o g u v)

  pub entering-relax_other :
      (os : List Str) (g : Graph) (q : List Str) (v : Str)
      → has v os ≡ false
      → entering ((relax n os (g, q)).0) v ≡ entering g v
  unfolding relax has
  entering-relax_other [] g q v h = refl
  entering-relax_other (o ∷ os) g q v h =
      entering-relax_other os _ _ v (ground arith) ∙ entering_other o g v (ground arith)

  -- The nodes that lost their last edge are the new ones in the queue.
  pub has-relax :
      (os : List Str) (g : Graph) (q : List Str) (v : Str)
      → Distinct os
      → has v ((relax n os (g, q)).1)
        ≡ (has v q || (has v os && is_empty (entering ((relax n os (g, q)).0) v)))
  unfolding relax has
  has-relax [] g q v d = ground arith
  has-relax (o ∷ os) g q v d =
      has-relax os _ _ v d.1
      ∙ has-pushed_later o q v _ _ _ (λ e.
        let same : o ≡ v = eq_of_str_eq o v e in
        let later : has v os ≡ false = rw (← same) d.0 in
        (later, ap is_empty (entering-relax_other os _ _ v later) ∙ rw same refl))

  apart_lem :
      (o : Str) (q os : List Str)
      → ((v : Str) → has v q ≡ true → has v (o ∷ os) ≡ false)
      → has o q ≡ false
  unfolding has
  apart_lem o q os h = ground (arith, h o, str_eq_iff o o)

  pub Distinct-relax :
      (os : List Str) (g : Graph) (q : List Str)
      → Distinct os
      → Distinct q
      → ((v : Str) → has v q ≡ true → has v os ≡ false)
      → Distinct ((relax n os (g, q)).1)
  unfolding relax has
  Distinct-relax [] g q d e h = e
  Distinct-relax (o ∷ os) g q d e h =
      let b = is_empty (entering (update_node o (remove_edge_in n) g) o) in
      let apart : has o q ≡ false = apart_lem o q os h in
      Distinct-relax os _ _ d.1 (Distinct-pushed o q b e apart)
        (λ v hv. ground (arith, has-pushed o q v b, h v, d.0, str_eq_iff o v))
