-- ===== src/Graph/Finish.antt =====
-- The loop of the topological sort ends within its fuel, and what its last state tells.
use test.Base.{
  ℕ, zero, suc, ◌+◌, ◌≤◌, ◌<◌, ◌≡◌, refl, sym, ◌∙◌, inl, inr, Bool, true, false, ◌||◌, List, [],
  ◌∷◌, ◌++◌, some, Str, str_eq, str_eq_iff, str_eq_refl, has, has-append, lookup, is_empty, length,
  has_key, eq_of_str_eq, ◌⊎◌, if◌then◌else◌, arith, Bool-cases,
}
use test.Graph.{Graph, Sorting, leaving, entering, keys, round, rounds, no_edges}
use test.Graph.Nodes.{Distinct, lookup-missing, has_key-keys}
use test.Graph.Rounds.{RangeLaws, Sorts, round-Sorts}

List-cases {ℓ} :
    {A : Type ℓ} (xs : List A) → (xs ≡ []) ⊎ ((x : A) × (rest : List A) × (xs ≡ x ∷ rest))
List-cases [] = inl refl
List-cases (x ∷ xs) = inr (x, xs, refl)

-- How many of the names are not in the list yet.
pub left_over : List Str → List Str → ℕ
left_over [] done = 0
left_over (k ∷ ks) done = (if has k done then 0 else 1) + left_over ks done

pub left_over-le : (ks done : List Str) → left_over ks done ≤ length ks
unfolding left_over
left_over-le [] done = omega arith
left_over-le (k ∷ ks) done = ground (arith, left_over-le ks done)

has_snoc : (v n : Str) (vs : List Str) → has v (vs ++ n ∷ []) ≡ (has v vs || str_eq n v)
unfolding has
has_snoc v n vs = rw has-append (ground arith)

left_over-snoc_le :
    (n : Str) (ks done : List Str) → left_over ks (done ++ n ∷ []) ≤ left_over ks done
unfolding left_over
left_over-snoc_le n [] done = omega arith
left_over-snoc_le n (k ∷ ks) done = ground (arith, left_over-snoc_le n ks done, has_snoc k n done)

left_over-snoc :
    (n : Str) (ks done : List Str)
    → has n ks ≡ true
    → has n done ≡ false
    → left_over ks (done ++ n ∷ []) < left_over ks done
unfolding left_over has
left_over-snoc n [] done h f = cc
left_over-snoc n (k ∷ ks) done h f = ground (
  arith,
  left_over-snoc n ks done,
  left_over-snoc_le n ks done,
  has_snoc k n done,
  str_eq_iff k n,
  str_eq_refl n,
)

pub empty_of_has : (xs : List Str) → ((u : Str) → has u xs ≡ false) → is_empty xs ≡ true
unfolding has
empty_of_has [] h = refl
empty_of_has (x ∷ xs) h = ground (arith, h x, str_eq_refl x)

pub no_edges-entering : (g : Graph) (v : Str) → no_edges g ≡ true → is_empty (entering g v) ≡ true
unfolding no_edges lookup
no_edges-entering [] v h = refl
no_edges-entering ((k, n) ∷ g) v h = elim (Bool-cases (str_eq k v)) [
  | inl e ↦ rw e (ground arith)
  | inr e ↦ rw e (no_edges-entering g v (ground arith))
]

pub no_edges_of :
    (g : Graph)
    → Distinct (keys g)
    → ((v : Str) → is_empty (entering g v) ≡ true)
    → ((v : Str) → is_empty (leaving g v) ≡ true)
    → no_edges g ≡ true
unfolding no_edges lookup keys
no_edges_of [] d hi ho = refl
no_edges_of ((k, n) ∷ g) d hi ho =
    let ti : (v : Str) → is_empty (entering g v) ≡ true = λ v. elim (Bool-cases (str_eq k v)) [
      | inl e ↦ rw (lookup-missing v g (gone v e)) refl
      | inr e ↦ rw e at (hi v)
    ] in
    let to : (v : Str) → is_empty (leaving g v) ≡ true = λ v. elim (Bool-cases (str_eq k v)) [
      | inl e ↦ rw (lookup-missing v g (gone v e)) refl
      | inr e ↦ rw e at (ho v)
    ] in
    ground (arith, hi k, ho k, str_eq_refl k, no_edges_of g d.1 ti to)
  where
    gone : (v : Str) → str_eq k v ≡ true → has_key v g ≡ false
    gone v e = rw (← eq_of_str_eq k v e) (sym (has_key-keys k g) ∙ d.0)

module _ (range : List Str → List Str) (laws : RangeLaws range) (node : Str → Bool)
    (edge : Str → Str → Bool) (ends : (u v : Str) → edge u v ≡ true → node v ≡ true) (ks : List Str)
    (known : (v : Str) → has v ks ≡ node v) where
  rounds-done : (fuel : ℕ) (s : Sorting) → s.empty ≡ [] → rounds range fuel s ≡ some s
  unfolding rounds
  rounds-done zero s h = ground arith
  rounds-done (suc fuel) s h = ground arith

  rounds-next :
      (fuel : ℕ) (s : Sorting) (n : Str) (q : List Str)
      → s.empty ≡ n ∷ q
      → rounds range (suc fuel) s ≡ rounds range fuel (round range n q s)
  unfolding rounds
  rounds-next fuel s n q h = ground arith

  round_falls :
      (s : Sorting) (n : Str) (q : List Str)
      → s.empty ≡ n ∷ q
      → Sorts node edge ks s
      → left_over ks (round range n q s).sorted < left_over ks s.sorted
  unfolding round has
  round_falls s n q h i =
      let front : has n s.empty ≡ true = rw h (ground (arith, str_eq_refl n)) in
      left_over-snoc n ks s.sorted (known n ∙ i.queue_nodes n front) (i.fresh n front)

  pub rounds-total :
      (fuel : ℕ) (s : Sorting)
      → Sorts node edge ks s
      → left_over ks s.sorted ≤ fuel
      → (t : Sorting) × (rounds range fuel s ≡ some t) × Sorts node edge ks t × (t.empty ≡ [])
  rounds-total zero s i h = elim (List-cases s.empty) [
    | inl e ↦ (s, rounds-done zero s e, i, e)
    | inr (n, q, e) ↦ absurd (omega (arith, round_falls s n q e i))
  ]
  rounds-total (suc fuel) s i h = elim (List-cases s.empty) [
    | inl e ↦ (s, rounds-done (suc fuel) s e, i, e)
    | inr (n, q, e) ↦
        let (t, r, j, f) =
          rounds-total fuel (round range n q s) (round-Sorts range laws node edge ends ks n q s e i)
            (omega (arith, round_falls s n q e i)) in
        (t, rounds-next fuel s n q e ∙ r, j, f)
  ]
