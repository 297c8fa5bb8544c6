-- ===== src/TargetGroup/RequiredBy.antt =====
-- Which targets need a test: those with a graded test that is it or depends on it, directly or not.
use test.Base.{
  ℕ, zero, suc, ◌+◌, ◌≤◌, ◌<◌, ◌≡◌, ◌↔◌, ◌⊎◌, refl, sym, ap, subst, ◌∙◌, inl, inr, Bool, true,
  false, ◌&&◌, List, [], ◌∷◌, ◌++◌, some, Str, Dict, str_eq, str_eq_refl, str_eq_iff, eq_of_str_eq,
  has, lookup, is_empty, length, arith, Bool-cases, Option-cases, ||-cases,
}
use test.Graph.Order.{Topological-Distinct}
use test.Graph.Rounds.{RangeLaws}
use test.Graph.Cycles.{place, edge_rises, length-le_of_distinct}
use test.Groups.{Test}
use test.Groups.Expand.{ids_of}
use test.Groups.Edges.{deps_of, depends}
use test.Groups.Closure.{Reached, Visits, Found-node, visit_all-Found, place-le}
use test.Groups.Closed.{Ordered}
use test.TargetGroup.Names.{some_inj}
use test.TargetGroup.{GradedTest, Marks, required_by, assign_test_required_by, assign_required_by}

length-ids : (store : Dict Test) → length (ids_of store) ≡ length store
unfolding ids_of
length-ids [] = refl
length-ids ((id, t) ∷ store) = ap suc (length-ids store)

module _ (edge : Str → Str → Bool) (ds : Dict GradedTest) where
  -- The test `u` is graded for the target `name`, and is or depends on `v`.
  abbrev pub Needs : Str → Str → Str → Type 0
  Needs u v name =
      (g : GradedTest) × (lookup u ds ≡ some g)
      × (is_empty g.target_name ≡ false)
      × (g.target_name ≡ name)
      × Reached edge u v

  -- One of the tests needs it.
  abbrev pub Needed : List Str → Str → Str → Type 0
  Needed ids v name = (u : Str) × (has u ids ≡ true) × Needs u v name

module _ (range : List Str → List Str) (laws : RangeLaws range) (store : Dict Test)
    (o : Ordered store) where
  short : length (o.0) ≤ length store
  short = omega (
    arith,
    length-ids store,
    length-le_of_distinct (o.0) (ids_of store) (Topological-Distinct (depends store) [] (o.0) o.1)
        (λ v h. sym (o.2 v) ∙ h),
  )

  assign_test-Found :
      (fuel : ℕ) (id : Str)
      → length (o.0) < fuel + place (o.0) id
      → Visits (depends store) (assign_test_required_by range store fuel) id
  unfolding assign_test_required_by has
  assign_test-Found zero id enough acc = absurd (omega (arith, place-le (o.0) id))
  assign_test-Found (suc fuel) id enough acc =
      let deps = deps_of (lookup id store) in
      let deeper : (n : Str)
          → has n (range deps) ≡ true
          → Visits (depends store) (assign_test_required_by range store fuel) n =
        λ n hn.
          let e : depends store id n ≡ true = sym (laws.visits n deps) ∙ hn in
          assign_test-Found fuel n
            (omega (arith, (edge_rises (depends store) [] (o.0) id n o.1 e (o.3 id n e) refl).1)) in
      let (r, p, f) =
        visit_all-Found (depends store) (assign_test_required_by range store fuel) (range deps)
          deeper (acc ++ id ∷ []) in
      (r, p, Found-node (depends store) id _ acc r (λ m. laws.visits m deps) f)

  -- The tests that one graded test marks.
  marked-Reached :
      (id : Str)
      → (r : List Str) × (assign_test_required_by range store (suc (length store)) id [] ≡ some r)
        × ((v : Str) → (has v r ≡ true) ↔ Reached (depends store) id v)
  unfolding has
  marked-Reached id =
      let (r, p, f) = assign_test-Found (suc (length store)) id (omega (arith, short)) [] in
      (
        r,
        p,
        (λ v. (
          (λ h. elim (f.sound v h) [
            | inl a ↦ absurd (cc a)
            | inr (n, hn, w) ↦
                subst (λ x. Reached (depends store) x v) (sym (eq_of_str_eq id n (ground arith))) w
          ]),
          (λ w. f.complete id v (ground (arith, str_eq_refl id)) w),
        )),
      )

  module _ (ds : Dict GradedTest) where
    earlier_or :
        (id : Str) (ids : List Str) (v name : Str)
        → Needed (depends store) ds (id ∷ ids) v name
        → Needs (depends store) ds id v name ⊎ Needed (depends store) ds ids v name
    unfolding has
    earlier_or id ids v name (u, h, n) = elim (||-cases (str_eq id u) (has u ids) h) [
      | inl e ↦ inl (subst (λ x. Needs (depends store) ds x v name) (sym (eq_of_str_eq id u e)) n)
      | inr e ↦ inr (u, e, n)
    ]

    here :
        (id : Str) (ids : List Str) (v name : Str)
        → Needs (depends store) ds id v name
        → Needed (depends store) ds (id ∷ ids) v name
    unfolding has
    here id ids v name n = (id, ground (arith, str_eq_refl id), n)

    later :
        (id : Str) (ids : List Str) (v name : Str)
        → Needed (depends store) ds ids v name
        → Needed (depends store) ds (id ∷ ids) v name
    unfolding has
    later id ids v name (u, h, n) = (u, ground arith, n)

    -- The marks that the loop makes are those that are needed.
    abbrev pub Marked : List Str → Type 0
    Marked ids =
        (ms : Marks) × (assign_required_by range store ids ds ≡ some ms)
        × ((v name : Str) → (required_by ms v name ≡ true) ↔ Needed (depends store) ds ids v name)

    skip :
        (id : Str) (ids : List Str) (m : Marked ids)
        → ((v name : Str) → Needs (depends store) ds id v name → ⊥)
        → (assign_required_by range store (id ∷ ids) ds ≡ assign_required_by range store ids ds)
        → Marked (id ∷ ids)
    skip id ids (ms, p, f) unneeded q = (
      ms,
      q ∙ p,
      (λ v name. (
        (λ h. later id ids v name ((f v name).0 h)),
        (λ n. elim (earlier_or id ids v name n) [
          | inl x ↦ absurd (unneeded v name x)
          | inr x ↦ (f v name).1 x
        ]),
      )),
    )

    take :
        (id : Str) (ids : List Str) (g : GradedTest)
        → lookup id ds ≡ some g
        → is_empty g.target_name ≡ false
        → Marked ids
        → Marked (id ∷ ids)
    unfolding assign_required_by
    take id ids g e n (ms, p, f) =
        let (r, q, reached) = marked-Reached id in
        (
          (g.target_name, r) ∷ ms,
          rw (e, n, q, p) refl,
          (λ v name. (
            (λ h. elim (||-cases (str_eq g.target_name name && has v r) (required_by ms v name) h) [
              | inl a ↦ here id ids v name (
                g,
                e,
                n,
                eq_of_str_eq g.target_name name (ground arith),
                (reached v).0 (ground arith),
              )
              | inr b ↦ later id ids v name ((f v name).0 b)
            ]),
            (λ k. elim (earlier_or id ids v name k) [
              | inl (g', e', n', t, w) ↦
                  let same : g ≡ g' = some_inj (sym e ∙ e') in
                  let own : str_eq g.target_name name ≡ true =
                    (str_eq_iff g.target_name name).1
                      (ap (λ (x : GradedTest). x.target_name) same ∙ t) in
                  rw (own, (reached v).1 w) refl
              | inr x ↦ ground (arith, (f v name).1 x)
            ]),
          )),
        )

    pub assign_required_by-Marked : (ids : List Str) → Marked ids
    unfolding assign_required_by has
    assign_required_by-Marked [] =
        ([], refl, (λ v name. ((λ h. absurd (cc h)), (λ n. absurd (cc (n.1))))))
    assign_required_by-Marked (id ∷ ids) =
        let rest = assign_required_by-Marked ids in
        elim (Option-cases (lookup id ds)) [
          | inl e ↦ skip id ids rest (λ v name n. cc (e, n.1)) (rw e refl)
          | inr (g, e) ↦ elim (Bool-cases (is_empty g.target_name)) [
            | inr f ↦ take id ids g e f rest
            | inl f ↦
                skip id ids rest
                  (λ v name n. cc (
                    f,
                    subst (λ (x : GradedTest). is_empty x.target_name ≡ false)
                        (some_inj (sym (n.1) ∙ e)) (n.2),
                  ))
                  (rw (e, f) refl)
          ]
        ]
