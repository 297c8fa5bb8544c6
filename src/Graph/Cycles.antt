-- ===== src/Graph/Cycles.antt =====
-- Walks in a graph: a topological order excludes closed ones, and where every node has an edge
-- from another, walking backwards runs into one.
use test.Base.{
  ℕ, zero, suc, ◌≤◌, ◌<◌, ◌≡◌, refl, ap, ◌⊎◌, inl, inr, Bool, true, false, List, [], ◌∷◌, Str,
  str_eq, str_eq_iff, str_eq_refl, eq_of_str_eq, has, del, has-del, length, if◌then◌else◌, arith,
  Bool-cases,
}
use test.Graph.Nodes.{Distinct}
use test.Graph.Order.{Topological}

-- A way along one or more edges.
pub data Walk (edge : Str → Str → Bool) : Str → Str → Type 0 where
  one : {u v : Str} → edge u v ≡ true → Walk edge u v
  longer : {u v w : Str} → edge u v ≡ true → Walk edge v w → Walk edge u w

pub Walk-snoc :
    (edge : Str → Str → Bool) {u v w : Str} → Walk edge u v → edge v w ≡ true → Walk edge u w
Walk-snoc edge (one e) h = longer e (one h)
Walk-snoc edge (longer e p) h = longer e (Walk-snoc edge p h)

-- A list without repetition in a set of `length ks` names is no longer than that.
length-del : (k : Str) (ks : List Str) → has k ks ≡ true → length (del k ks) < length ks
unfolding has del
length-del k [] h = cc
length-del k (j ∷ ks) h = ground (arith, length-del k ks, length-del_le k ks)
  where
    length-del_le : (k : Str) (ks : List Str) → length (del k ks) ≤ length ks
    length-del_le k [] = omega arith
    length-del_le k (j ∷ ks) = ground (arith, length-del_le k ks)

pub length-le_of_distinct :
    (xs ks : List Str)
    → Distinct xs
    → ((x : Str) → has x xs ≡ true → has x ks ≡ true)
    → length xs ≤ length ks
unfolding has
length-le_of_distinct [] ks d h = omega arith
length-le_of_distinct (x ∷ xs) ks d h =
    let hx : has x ks ≡ true = h x (ground (arith, str_eq_refl x)) in
    let rest : (y : Str) → has y xs ≡ true → has y (del x ks) ≡ true =
      λ y hy. ground (arith, has-del y x ks, h y, d.0, str_eq_iff x y) in
    omega (arith, length-del x ks hx, length-le_of_distinct xs (del x ks) d.1 rest)

-- The place of a name in a list.
abbrev pub place : List Str → Str → ℕ
place [] v = 0
place (k ∷ ks) v = if str_eq k v then 0 else suc (place ks v)

module _ (edge : Str → Str → Bool) where
  -- In a topological order an edge leads to a later place.
  pub edge_rises :
      (seen vs : List Str) (u v : Str)
      → Topological edge seen vs
      → edge u v ≡ true
      → has v vs ≡ true
      → has u seen ≡ false
      → (has u vs ≡ true) × (place vs u < place vs v)
  unfolding has
  edge_rises seen [] u v t e hv hu = cc
  edge_rises seen (k ∷ ks) u v t e hv hu = elim (Bool-cases (str_eq k v)) [
    | inl same ↦ absurd (before (rw (← eq_of_str_eq k v same) at e))
    | inr other ↦ elim (Bool-cases (str_eq k u)) [
      | inl front ↦ (ground arith, ground arith)
      | inr behind ↦
          let (h, l) = edge_rises (k ∷ seen) ks u v t.2 e (ground arith) (ground arith) in
          (ground arith, ground arith)
    ]
  ]
    where
      before : edge u k ≡ true → ⊥
      before e' = cc (t.0 u e')

  walk_rises :
      (vs : List Str)
      → Topological edge [] vs
      → {u w : Str} → Walk edge u w
      → has w vs ≡ true
      → (has u vs ≡ true) × (place vs u < place vs w)
  unfolding has
  walk_rises vs t (one e) h = edge_rises [] vs _ _ t e h refl
  walk_rises vs t (longer e p) h =
      let (hv, l) = walk_rises vs t p h in
      let (hu, k) = edge_rises [] vs _ _ t e hv refl in (hu, omega arith)

  pub no_closed_walk :
      (vs : List Str) → Topological edge [] vs → (u : Str) → has u vs ≡ true → ¬ Walk edge u u
  no_closed_walk vs t u h p = absurd (omega (arith, (walk_rises vs t p h).1))

  -- The names met when walking backwards by `pred`.
  trail : (Str → Str) → ℕ → Str → List Str
  trail pred zero v = []
  trail pred (suc n) v = v ∷ trail pred n (pred v)

  length-trail : (pred : Str → Str) (n : ℕ) (v : Str) → length (trail pred n v) ≡ n
  unfolding trail
  length-trail pred zero v = refl
  length-trail pred (suc n) v = ap suc (length-trail pred n (pred v))

  module _ (pred : Str → Str) (open_node : Str → Bool)
      (leads : (v : Str)
        → open_node v ≡ true
        → (edge (pred v) v ≡ true) × (open_node (pred v) ≡ true)) where
    trail_open :
        (n : ℕ) (v y : Str)
        → open_node v ≡ true
        → has y (trail pred n v) ≡ true
        → open_node y ≡ true
    unfolding trail has
    trail_open zero v y o h = cc
    trail_open (suc n) v y o h =
        ground (arith, trail_open n (pred v) y (leads v o).1, str_eq_iff v y)

    back_walk :
        (n : ℕ) (v y : Str)
        → open_node v ≡ true
        → has y (trail pred n (pred v)) ≡ true
        → Walk edge y v
    unfolding trail has
    back_walk zero v y o h = cc
    back_walk (suc n) v y o h = elim (Bool-cases (str_eq (pred v) y)) [
      | inl e ↦ one (rw (← eq_of_str_eq (pred v) y e) (leads v o).0)
      | inr e ↦ Walk-snoc edge (back_walk n (pred v) y (leads v o).1 (ground arith)) (leads v o).0
    ]

    -- Either the trail has no repetition or there is a closed walk.
    closed_or_distinct :
        (n : ℕ) (v : Str)
        → open_node v ≡ true
        → ((y : Str) × Walk edge y y) ⊎ Distinct (trail pred n v)
    unfolding trail
    closed_or_distinct zero v o = inr tt
    closed_or_distinct (suc n) v o = elim (Bool-cases (has v (trail pred n (pred v)))) [
      | inl h ↦ inl (v, back_walk n v v o h)
      | inr h ↦ elim (closed_or_distinct n (pred v) (leads v o).1) [
        | inl c ↦ inl c
        | inr d ↦ inr (h, d)
      ]
    ]

    pub closed_walk :
        (ks : List Str)
        → ((y : Str) → open_node y ≡ true → has y ks ≡ true)
        → (v : Str) → open_node v ≡ true
        → (y : Str) × Walk edge y y
    closed_walk ks known v o = elim (closed_or_distinct (suc (length ks)) v o) [
      | inl c ↦ c
      | inr d ↦ absurd (
          omega (
            arith,
            length-trail pred (suc (length ks)) v,
            length-le_of_distinct (trail pred (suc (length ks)) v) ks d
                (λ y h. known y (trail_open (suc (length ks)) v y o h)),
          ))
    ]
