-- ===== src/TargetGroup/Graded.antt =====
-- What the tests of the targets are given.
use test.Base.{
  add64, ℕ, ◌+◌, ◌%◌, ◌^◌, ◌<◌, ◌≡◌, refl, sym, ap, ◌∙◌, inl, inr, true, false, List, [], ◌∷◌, some,
  Str, str_eq_refl, has, Dict, lookup, insert, lookup-insert, arith, Bool-cases, All, sum_by,
}
use test.Grading.{Command}
use test.Graph.Nodes.{Distinct}
use test.Targets.{Target, TargetTest}
use test.Targets.Apply.{Scored, done, apply_to}
use test.Targets.Changes.Shape.{ids}
use test.TargetGroup.{assembled, GradedTest, grade_tests, check_total, grade_targets}
use test.TargetGroup.Names.{
  names, assembled_inj, when_applied-done, then_grade-assembled, neither, Distinct-append, checked,
}

module _ (commands : Str → List Command) where
  -- The test is in the group, and the target was applied to it.
  abbrev pub GradedBy : Str → List Str → Dict GradedTest → TargetTest → Type 0
  GradedBy name group ds t =
      (has t.id group ≡ true)
      × ((s : Scored) × (apply_to t (commands t.id) ≡ done s)
          × (lookup t.id ds ≡ some (record { target_name = name; scored = s })))

  module _ (name : Str) (group : List Str) where
    record Tests (ts : List TargetTest) (ds : Dict GradedTest) (total : ℕ) (es : Dict GradedTest)
        (sum : ℕ) : Type 0 where
      graded : All (GradedBy name group es) ts
      others : (id : Str) → has id (ids ts) ≡ false → lookup id es ≡ lookup id ds
      sums : sum ≡ (total + sum_by (λ (t : TargetTest). t.points) ts) % 2 ^ 64

    grade_tests-Tests :
        (ts : List TargetTest) (ds : Dict GradedTest) (total : ℕ) (es : Dict GradedTest) (sum : ℕ)
        → Distinct (ids ts)
        → total < 2 ^ 64
        → grade_tests commands name group ts ds total ≡ assembled (es, sum)
        → Tests ts ds total es sum
    unfolding grade_tests has add64
    grade_tests-Tests [] ds total es sum d lt h =
        let q = assembled_inj h in
        record {
          graded = tt;
          others = λ id k. ap (λ x. lookup id (x.0)) (sym q);
          sums = omega (arith, ap (λ x. x.1) q);
        }
    grade_tests-Tests (t ∷ ts) ds total es sum d lt h = elim (Bool-cases (has t.id group)) [
      | inr e ↦ absurd (cc (rw e at h))
      | inl e ↦
          let (s, hs, k) = when_applied-done (apply_to t (commands t.id)) _ (es, sum) (rw e at h) in
          let entry : GradedTest = record { target_name = name; scored = s } in
          let rest =
            grade_tests-Tests ts (insert t.id entry ds) (add64 total t.points) es sum d.1
              (omega arith) k in
          record {
            graded = (
              (
                e,
                (
                  s,
                  hs,
                  rest.others t.id d.0
                      ∙ lookup-insert t.id t.id entry ds
                      ∙ rw (str_eq_refl t.id) refl,
                ),
              ),
              rest.graded,
            );
            others = λ id n.
                rest.others id (ground arith) ∙ lookup-insert t.id id entry ds ∙ ground arith;
            sums = omega (arith, rest.sums);
          }
    ]

  pub record Ready (group : List Str) (ts : List Target) (ds es : Dict GradedTest) : Type 0 where
    pub graded : All (λ (t : Target). All (GradedBy t.name group es) t.tests) ts
    pub others : (id : Str) → has id (names ts) ≡ false → lookup id es ≡ lookup id ds
    pub sums :
        All
          (λ (t : Target). t.points ≡ sum_by (λ (tt' : TargetTest). tt'.points) t.tests % 2 ^ 64)
          ts

  kept :
      (name : Str) (group : List Str) (es fs : Dict GradedTest) (ts : List TargetTest)
      → ((id : Str) → has id (ids ts) ≡ true → lookup id fs ≡ lookup id es)
      → All (GradedBy name group es) ts
      → All (GradedBy name group fs) ts
  unfolding has
  kept name group es fs [] same a = tt
  kept name group es fs (t ∷ ts) same ((h, (s, k, l)), a) = (
    (h, (s, k, same t.id (rw (str_eq_refl t.id) refl) ∙ l)),
    kept name group es fs ts (λ id n. same id (ground arith)) a,
  )

  pub grade_targets-Ready :
      (group : List Str) (ts : List Target) (ds es : Dict GradedTest)
      → Distinct (names ts)
      → grade_targets commands group ts ds ≡ assembled es
      → Ready group ts ds es
  unfolding grade_targets
  grade_targets-Ready group [] ds es d h = record {
    graded = tt;
    others = λ id n. ap (lookup id) (sym (assembled_inj h));
    sums = tt;
  }
  grade_targets-Ready group (t ∷ ts) ds es d h =
      let (ms, hm, hr) = then_grade-assembled _ _ es h in
      let ((ks, sum), hk, hc) =
        then_grade-assembled (grade_tests commands t.name group t.tests ds 0)
          (check_total commands t) ms hm in
      let (dt, dr, apart) = Distinct-append (ids t.tests) (names ts) d in
      let own = grade_tests-Tests t.name group t.tests ds 0 ks sum dt (omega arith) hk in
      let rest = grade_targets-Ready group ts ms es dr hr in
      let (total, same) = checked t ks sum ms hc in
      record {
        graded = (
          kept t.name group ks es t.tests
              (λ id n. rest.others id (apart id n) ∙ ap (lookup id) same) own.graded,
          rest.graded,
        );
        others = λ id n.
            let (a, b) = neither id (ids t.tests) (names ts) n in
            rest.others id b ∙ ap (lookup id) same ∙ own.others id a;
        sums = (omega (arith, own.sums, total), rest.sums);
      }
