-- ===== src/Groups/Closure.antt =====
-- The search along the dependencies ends where there is no cycle, and finds what it should.
use test.Base.{
  ℕ, zero, suc, ◌+◌, ◌≤◌, ◌<◌, ◌≡◌, ◌⊎◌, refl, sym, subst, ◌∙◌, inl, inr, Bool, true, false, List,
  [], ◌∷◌, ◌++◌, Option, some, Str, str_eq, str_eq_refl, eq_of_str_eq, has, has-append, has_key,
  length, arith, Bool-cases, ||-cases,
}
use test.Graph.{Graph, leaving, keys}
use test.Graph.Nodes.{has_key-keys}
use test.Graph.Edges.{IsGraph}
use test.Graph.Order.{Topological, Topological-Distinct}
use test.Graph.Rounds.{RangeLaws}
use test.Graph.Cycles.{Walk, one, longer, place, edge_rises, length-le_of_distinct}
use test.Graph.Correct.{edge}
use test.Graph.Copy.{leaving_missing, length-keys}
use test.Groups.Expand.{visit_all, dep_nodes, get_dep_nodes, collect}

-- A node is reached from itself and along its walks.
abbrev pub Reached : (Str → Str → Bool) → Str → Str → Type 0
Reached e u v = (u ≡ v) ⊎ Walk e u v

-- What a search from some nodes adds to a list.
pub record Found (e : Str → Str → Bool) (starts acc r : List Str) : Type 0 where
  pub sound :
      (v : Str)
      → has v r ≡ true
      → (has v acc ≡ true) ⊎ ((n : Str) × (has n starts ≡ true) × Reached e n v)
  pub keeps : (v : Str) → has v acc ≡ true → has v r ≡ true
  pub complete : (n v : Str) → has n starts ≡ true → Reached e n v → has v r ≡ true

-- What the workers report for the tests of a group.
pub record Collected (e : Str → Str → Bool) (ids r : List Str) : Type 0 where
  pub sound : (v : Str) → has v r ≡ true → (n : Str) × (has n ids ≡ true) × Reached e n v
  pub complete : (n v : Str) → has n ids ≡ true → Walk e n v → has v r ≡ true

pub place-le : (vs : List Str) (v : Str) → place vs v ≤ length vs
place-le [] v = omega arith
place-le (k ∷ ks) v = ground (arith, place-le ks v)

module _ (e : Str → Str → Bool) where
  first_edge : {u v : Str} → Walk e u v → (w : Str) × (e u w ≡ true)
  first_edge (one h) = (_, h)
  first_edge (longer h w) = (_, h)

  Found-nil : (acc : List Str) → Found e [] acc acc
  unfolding has
  Found-nil acc = record { sound = λ v h. inl h; keeps = λ v h. h; complete = λ n v h r. cc }

  -- One start after the other.
  Found-cons :
      (n : Str) (ns acc r s : List Str)
      → Found e (n ∷ []) acc r
      → Found e ns r s
      → Found e (n ∷ ns) acc s
  unfolding has
  Found-cons n ns acc r s f g = record {
    sound = λ v h. elim (g.sound v h) [
      | inl k ↦ elim (f.sound v k) [ inl a ↦ inl a | inr (m, hm, w) ↦ inr (m, ground arith, w) ]
      | inr (m, hm, w) ↦ inr (m, ground arith, w)
    ];
    keeps = λ v h. g.keeps v (f.keeps v h);
    complete = λ m v h w. elim (||-cases (str_eq n m) (has m ns) h) [
      | inl same ↦ g.keeps v (f.complete m v (ground arith) w)
      | inr later ↦ g.complete m v later w
    ];
  }

  -- A node and then what is found from its targets.
  pub Found-node :
      (n : Str) (ns acc r : List Str)
      → ((m : Str) → has m ns ≡ e n m)
      → Found e ns (acc ++ n ∷ []) r
      → Found e (n ∷ []) acc r
  unfolding has
  Found-node n ns acc r targets f = record {
    sound = λ v h. elim (f.sound v h) [
      | inl k ↦ elim (||-cases (has v acc) (has v (n ∷ [])) (sym (has-append v acc (n ∷ [])) ∙ k)) [
        | inl a ↦ inl a
        | inr s ↦ inr (n, ground (arith, str_eq_refl n), inl (eq_of_str_eq n v (ground arith)))
      ]
      | inr (m, hm, w) ↦
          inr (n, ground (arith, str_eq_refl n), inr (extend m v (sym (targets m) ∙ hm) w))
    ];
    keeps = λ v h. f.keeps v (rw has-append (ground arith));
    complete = λ m v h w. from m v (eq_of_str_eq n m (ground arith)) w;
  }
    where
      extend : (m v : Str) → e n m ≡ true → Reached e m v → Walk e n v
      extend m v h (inl p) = rw (← p) (one h)
      extend m v h (inr w) = longer h w

      here : has n r ≡ true
      here = f.keeps n (rw has-append (ground (arith, str_eq_refl n)))

      along : {v : Str} → Walk e n v → has v r ≡ true
      along (one h) = f.complete _ _ (targets _ ∙ h) (inl refl)
      along (longer h w) = f.complete _ _ (targets _ ∙ h) (inr w)

      from : (m v : Str) → n ≡ m → Reached e m v → has v r ≡ true
      from m v p (inl q) = rw (← q) (rw (← p) here)
      from m v p (inr w) = along (subst (λ (x : Str). Walk e x v) (sym p) w)

  abbrev pub Visits : (Str → List Str → Option (List Str)) → Str → Type 0
  Visits visit n =
      (acc : List Str) → (r : List Str) × (visit n acc ≡ some r) × Found e (n ∷ []) acc r

  pub visit_all-Found :
      (visit : Str → List Str → Option (List Str)) (ns : List Str)
      → ((n : Str) → has n ns ≡ true → Visits visit n)
      → (acc : List Str) → (r : List Str) × (visit_all visit ns acc ≡ some r) × Found e ns acc r
  unfolding visit_all has
  visit_all-Found visit [] each acc = (acc, refl, Found-nil acc)
  visit_all-Found visit (n ∷ ns) each acc =
      let (r, p, f) = each n (ground (arith, str_eq_refl n)) acc in
      let (s, q, g) = visit_all-Found visit ns (λ m h. each m (ground arith)) r in
      (s, rw (p, visit_all) q, Found-cons n ns acc r s f g)

-- `vs`: the order that `TopSort` found. Along it the search goes down.
module _ (range : List Str → List Str) (laws : RangeLaws range) (g : Graph) (vs : List Str)
    (i : IsGraph g) (sorted : Topological (edge g) [] vs)
    (all : (v : Str) → has v vs ≡ has_key v g) where
  module _ (id n : Str) (h : has n (range (leaving g id)) ≡ true) where
    target_edge : edge g id n ≡ true
    target_edge = sym (laws.visits n (leaving g id)) ∙ h

    target : has_key n g ≡ true
    target = i.closed id n target_edge

    target_later : place vs id < place vs n
    unfolding has
    target_later = (edge_rises (edge g) [] vs id n sorted target_edge (all n ∙ target) refl).1

  short : length vs ≤ length g
  short = rw (← length-keys g) (
      length-le_of_distinct vs (keys g) (Topological-Distinct (edge g) [] vs sorted)
        (λ v h. has_key-keys v g ∙ sym (all v) ∙ h))

  dep_nodes-Found :
      (fuel : ℕ) (id : Str)
      → has_key id g ≡ true
      → length vs < fuel + place vs id
      → Visits (edge g) (dep_nodes range fuel g) id
  unfolding dep_nodes
  dep_nodes-Found zero id h enough acc = absurd (omega (arith, place-le vs id))
  dep_nodes-Found (suc fuel) id h enough acc =
      let deeper : (n : Str)
          → has n (range (leaving g id)) ≡ true
          → Visits (edge g) (dep_nodes range fuel g) n =
        λ n hn. dep_nodes-Found fuel n (target id n hn) (omega (arith, target_later id n hn)) in
      let (r, p, f) =
        visit_all-Found (edge g) (dep_nodes range fuel g) (range (leaving g id)) deeper
          (acc ++ id ∷ []) in
      (r, p, Found-node (edge g) id _ acc r (λ m. laws.visits m (leaving g id)) f)

  get_dep_nodes-Collected :
      (id : Str)
      → (r : List Str) × (get_dep_nodes range g id ≡ some r) × Collected (edge g) (id ∷ []) r
  unfolding get_dep_nodes has
  get_dep_nodes-Collected id = elim (Bool-cases (has_key id g)) [
    | inl k ↦
        let (r, p, f) = dep_nodes-Found (suc (length g)) id k (omega (arith, short)) [] in
        (
          r,
          rw k p,
          record {
            sound = λ v h. elim (f.sound v h) [ inl a ↦ cc | inr found ↦ found ];
            complete = λ n v h w. f.complete n v h (inr w);
          },
        )
    | inr k ↦ (
      [],
      rw k refl,
      record {
        sound = λ v h. cc;
        complete = λ n v h w. absurd (no_walk id n v k (ground arith) w);
      },
    )
  ]
    where
      no_walk : (id n v : Str) → has_key id g ≡ false → str_eq id n ≡ true → Walk (edge g) n v → ⊥
      no_walk id n v k same w =
          let (m, e) = first_edge (edge g) w in
          absurd (cc (leaving_missing n m g (rw (← eq_of_str_eq id n same) k)))

  pub collect-Collected :
      (ids : List Str) → (r : List Str) × (collect range g ids ≡ some r) × Collected (edge g) ids r
  unfolding collect has
  collect-Collected [] = ([], refl, record { sound = λ v h. cc; complete = λ n v h w. cc })
  collect-Collected (id ∷ ids) =
      let (r, p, c) = get_dep_nodes-Collected id in
      let (s, q, d) = collect-Collected ids in
      (
        r ++ s,
        rw (p, collect) (rw (q, collect) refl),
        record {
          sound = λ v h. elim (||-cases (has v r) (has v s) (sym (has-append v r s) ∙ h)) [
            | inl a ↦ let (n, hn, w) = c.sound v a in (n, ground arith, w)
            | inr b ↦ let (n, hn, w) = d.sound v b in (n, ground arith, w)
          ];
          complete = λ n v h w. elim (||-cases (str_eq id n) (has n ids) h) [
            | inl a ↦ rw has-append (ground (arith, c.complete n v (ground arith) w))
            | inr b ↦ rw has-append (ground (arith, d.complete n v b w))
          ];
        },
      )
