-- ===== src/TargetGroup/Instances.antt =====
-- The group of a target: which tests it holds, and what they are given.
use test.Base.{
  ◌%◌, ◌^◌, ◌≡◌, ◌↔◌, refl, sym, ap, ◌∙◌, subst, ◌⊎◌, inl, inr, Bool, true, false, not, ◌&&◌, List,
  [], Option, none, some, Str, has, is_empty, Dict, lookup, All, sum_by, Option-cases,
}
use test.Grading.{Command}
use test.Graph.Nodes.{Distinct}
use test.Graph.Rounds.{RangeLaws}
use test.Targets.{Target, TargetTest}
use test.Targets.Changes.Shape.{ids}
use test.Groups.{Test, Loaded}
use test.Groups.Edges.{deps_of, depends}
use test.Groups.Stores.{deps_if}
use test.TargetGroup.RequiredBy.{Needs, Needed, assign_required_by-Marked}
use test.Graph.Cycles.{Walk}
use test.Groups.Expand.{GroupConfig, GroupResult, made, looping}
use test.Groups.Closed.{Closed, Refused, asking, knowing, group_from_config-Closed}
use test.TargetGroup.{
  InstanceError, GradeError, not_graded, with_group, duplicate_test, stuck, no_group, Assembled,
  assembled, refused, GradedTest, all_targets, add_targets, grade_targets, graded_group, configured,
  group_of, instance_of, Result, Marks, required_by,
}
use test.TargetGroup.Names.{names, add_targets-none, add_targets-Distinct}
use test.TargetGroup.Graded.{GradedBy, grade_targets-Ready}

module _ (commands : Str → List Command) where
  module _ (range : List Str → List Str) (laws : RangeLaws range) (cwd : Str)
      (glob : Str → Option (List Str)) (test_dir : Str) (loaded : List Loaded) (env : Dict Target)
      (t : Target) where
    abbrev running : List Target
    running = all_targets env t

    abbrev pub config : GroupConfig
    config = configured commands cwd glob range test_dir loaded (names running)

    abbrev pub asked : List Str
    asked = (asking range laws cwd glob config loaded).0

    abbrev pub needs : Str → Str → Bool
    needs = depends (knowing range laws cwd glob config loaded)

    -- What an instance is to be: the group holds the tests that the targets name and those that they
    -- depend on, no test is named twice, each has what its target gives it, no other test has anything,
    -- the points of a target are those of its tests, and the marks say which targets need which tests.
    pub record IsInstance (group : List Str) (es : Dict GradedTest) (ms : Marks) : Type 0 where
      pub members :
          (v : Str)
          → (has v group ≡ true)
            ↔ ((has v asked ≡ true) ⊎ ((u : Str) × (has u asked ≡ true) × Walk needs u v))
      pub distinct : Distinct (names running)
      pub graded : All (λ (u : Target). All (GradedBy commands u.name group es) u.tests) running
      pub others : (id : Str) → has id (names running) ≡ false → lookup id es ≡ none
      pub sums :
          All
            (λ (u : Target). u.points ≡ sum_by (λ (tt' : TargetTest). tt'.points) u.tests % 2 ^ 64)
            running
      pub required : (v name : Str) → (required_by ms v name ≡ true) ↔ Needed needs es group v name

    abbrev pub Instanced : Assembled InstanceError Result → Type 0
    Instanced (assembled (group, es, ms)) = IsInstance group es ms
    Instanced (refused duplicate_test) = ¬ Distinct (names running)
    Instanced (refused stuck) = ⊥
    Instanced (refused (not_graded e)) = Distinct (names running)
    Instanced (refused (no_group errs)) = Distinct (names running) × (is_empty errs ≡ false)

    module _ (d : Distinct (names running)) where
      module _ (store : Dict Test) (group : List Str)
          (c : Closed
            (Refused range laws cwd glob config loaded)
            asked
            (knowing range laws cwd glob config loaded)
            (made store group)) where
        same_needs : (u v : Str) → depends store u v ≡ needs u v
        same_needs u v =
            ap (λ x. has v (deps_of x)) (c.1 u)
            ∙ ap (has v) (
                deps_if (has u group && not (has u asked))
                  (lookup u (knowing range laws cwd glob config loaded)))

        in_group :
            (es : Dict GradedTest) (v name : Str)
            → Needed (depends store) es (range group) v name ↔ Needed needs es group v name
        in_group es v name =
            let same : depends store ≡ needs = λ j u w. same_needs u w j in
            (
              (λ (u, h, n).
                  (u, sym (laws.visits u group) ∙ h, subst (λ e. Needs e es u v name) same n)),
              (λ (u, h, n).
                  (u, laws.visits u group ∙ h, subst (λ e. Needs e es u v name) (sym same) n)),
            )

        graded-Instanced :
            (r : Assembled GradeError (Dict GradedTest))
            → grade_targets commands group running [] ≡ r
            → Instanced (with_group range store group r)
        unfolding lookup
        graded-Instanced (assembled es) h =
            let g = grade_targets-Ready commands group running [] es d h in
            let (ms, p, marked) = assign_required_by-Marked range laws store c.2 es (range group) in
            rw p (record {
              members = c.0;
              distinct = d;
              graded = g.graded;
              others = g.others;
              sums = g.sums;
              required = λ v name. (
                (λ h. (in_group es v name).0 ((marked v name).0 h)),
                (λ n. (marked v name).1 ((in_group es v name).1 n)),
              );
            })
        graded-Instanced (refused e) h = d

      group-Instanced :
          (r : GroupResult)
          → Closed
              (Refused range laws cwd glob config loaded)
              asked
              (knowing range laws cwd glob config loaded)
              r
          → Instanced (graded_group commands range running r)
      group-Instanced (made store group) c = graded-Instanced store group c _ refl
      group-Instanced (GroupResult.failed errs) c = (d, c.0)
      group-Instanced looping c = absurd c

    -- Making the instance of a target always ends, the recursion that marks the required tests included. Where it succeeds: the group holds exactly the tests that the targets to run name and those that they depend on, directly or not; no test is named twice; each test of a target is in the group and has what applying the target to it gives, under the target's name, and no other test has anything; the points of each target are the sum of those of its tests, modulo 2 ^ 64; and a test is marked as required by a target of a name that is not empty exactly if it is a test graded for that target or such a test depends on it, directly or not. It is refused for a duplicate test only if a test is named twice, and where the group is refused there is an error.
    pub instance_of-Instanced :
        Instanced (instance_of commands cwd glob range test_dir loaded env t)
    unfolding instance_of
    instance_of-Instanced = elim (Option-cases (add_targets running [])) [
      | inl e ↦ rw e (λ d. add_targets-none running [] e d)
      | inr (ids, e) ↦
          let (d, q) = add_targets-Distinct running [] ids tt e in
          rw e (
            subst
              (λ x. Instanced (group_of commands cwd glob range test_dir loaded running (some x)))
              (sym q)
              (group-Instanced (subst Distinct q d) _
                (group_from_config-Closed range laws cwd glob config loaded refl)))
    ]
