-- ===== src/Graph/Order.antt =====
-- What a topological order is, for the edges as a Boolean relation.
use test.Base.{
  ◌≡◌, refl, Bool, true, false, ◌||◌, List, [], ◌∷◌, ◌++◌, Str, str_eq_iff, str_eq_refl, has, arith,
}
use test.Graph.Nodes.{Distinct}

module _ (edge : Str → Str → Bool) where
  -- Every name stands behind the names that have an edge to it, and none stands twice.
  -- `seen`: the names before the list.
  abbrev pub Topological : List Str → List Str → Type 0
  Topological seen [] = Unit
  Topological seen (v ∷ vs) =
      ((u : Str) → edge u v ≡ true → has u seen ≡ true)
      × (has v seen ≡ false)
      × Topological (v ∷ seen) vs

  pub Topological-snoc :
      (n : Str) (seen vs : List Str)
      → Topological seen vs
      → ((u : Str) → edge u n ≡ true → (has u seen || has u vs) ≡ true)
      → has n seen ≡ false
      → has n vs ≡ false
      → Topological seen (vs ++ n ∷ [])
  unfolding has
  Topological-snoc n seen [] t before hs hv = (λ u e. ground (arith, before u e), hs, tt)
  Topological-snoc n seen (v ∷ vs) t before hs hv = (
    t.0,
    t.1,
    Topological-snoc n (v ∷ seen) vs t.2 (λ u e. ground (arith, before u e)) (ground arith)
        (ground arith),
  )

  not_again :
      (x : Str) (seen vs : List Str) → Topological seen vs → has x seen ≡ true → has x vs ≡ false
  unfolding has
  not_again x seen [] t h = refl
  not_again x seen (v ∷ vs) t h = ground (arith, not_again x (v ∷ seen) vs t.2, t.1, str_eq_iff v x)

  pub Topological-Distinct : (seen vs : List Str) → Topological seen vs → Distinct vs
  unfolding has
  Topological-Distinct seen [] t = tt
  Topological-Distinct seen (v ∷ vs) t = (
    not_again v (v ∷ seen) vs t.2 (ground (arith, str_eq_refl v)),
    Topological-Distinct (v ∷ seen) vs t.2,
  )
