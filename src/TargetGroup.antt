-- ===== src/TargetGroup.antt =====
-- target.go: `Target.Instance`, which makes the group of tests that a target runs, with its points.
pub mod Names
pub mod Graded
pub mod RequiredBy
pub mod Instances
mod Samples
use test.Base.{
  add64, ℕ, zero, suc, ◌+◌, ◌≡◌, Bool, true, false, not, ◌&&◌, ◌||◌, List, [], ◌∷◌, ◌++◌, Option,
  none, some, Str, str_eq, has, Dict, lookup, insert, is_empty, length, ◌==◌, if◌then◌else◌,
}
use test.Grading.{Command}
use test.Targets.{Target, TargetTest}
use test.Targets.Apply.{Scored, ApplyError, Applied, done, apply_to}
use test.Groups.{Test, GroupError, Loaded}
use test.Groups.Edges.{deps_of}
use test.Groups.Expand.{visit_all, GroupConfig, GroupResult, made, looping, group_from_config}

-- Why the tests cannot be given their points.
pub data GradeError : Type 0 where
  no_such_test wrong_total : GradeError
  not_applied : ApplyError → GradeError

-- `stuck`: the fuel of `GroupFromConfig` ran out.
pub data InstanceError : Type 0 where
  duplicate_test stuck : InstanceError
  no_group : List GroupError → InstanceError
  not_graded : GradeError → InstanceError

pub data Assembled (E A : Type 0) : Type 0 where
  assembled : A → Assembled E A
  refused : E → Assembled E A

-- What a target gives a test of the group: `TargetName`, and what `applyTo` sets.
pub record GradedTest : Type 0 where
  pub target_name : Str
  pub scored : Scored

-- `previousSubTargets` points to targets of the environment.
unfoldable pub subtargets : Dict Target → List Str → List Target
unfolding lookup
subtargets env [] = []
subtargets env (n ∷ ns) = elim (lookup n env) [
  | none ↦ subtargets env ns
  | some t ↦ t ∷ subtargets env ns
]

unfoldable pub all_targets : Dict Target → Target → List Target
unfolding subtargets
all_targets env t = (if not t.is_meta then t ∷ [] else []) ++ subtargets env t.previous

-- `config.Tests`, which holds the keys of `done`.
unfoldable pub add_tests : List TargetTest → List Str → Option (List Str)
unfolding has
add_tests [] ids = some ids
add_tests (tt' ∷ ts) ids =
    let rest = add_tests ts (ids ++ tt'.id ∷ []) in if has tt'.id ids then none else rest

abbrev pub then_add : Option (List Str) → (List Str → Option (List Str)) → Option (List Str)
then_add none f = none
then_add (some ids) f = f ids

unfoldable pub add_targets : List Target → List Str → Option (List Str)
unfolding add_tests
add_targets [] ids = some ids
add_targets (t ∷ ts) ids = then_add (add_tests t.tests ids) (add_targets ts)

abbrev pub when_applied :
    {A : Type 0} → Applied Scored → (Scored → Assembled GradeError A) → Assembled GradeError A
when_applied (done s) f = f s
when_applied (Applied.failed e) f = refused (not_applied e)

abbrev pub then_grade :
    {A B : Type 0} → Assembled GradeError A → (A → Assembled GradeError B) → Assembled GradeError B
then_grade (assembled a) f = f a
then_grade (refused e) f = refused e

-- The tests that were marked, with the name of the target, for each graded test.
abbrev pub Marks : Type 0
Marks = List (Str × List Str)

abbrev pub required_by : Marks → Str → Str → Bool
required_by [] v name = false
required_by ((n, vs) ∷ ms) v name = (str_eq n name && has v vs) || required_by ms v name

module _ (range : List Str → List Str) (store : Dict Test) where
  -- `assignTestRequiredBy`, as deep as the fuel allows: the tests that it marks.
  unfoldable pub assign_test_required_by : ℕ → Str → List Str → Option (List Str)
  unfolding visit_all lookup
  assign_test_required_by zero id marked = none
  assign_test_required_by (suc fuel) id marked =
      visit_all (assign_test_required_by fuel) (range (deps_of (lookup id store)))
        (marked ++ id ∷ [])

  abbrev pub with_mark : Str → Option (List Str) → Option Marks → Option Marks
  with_mark name none ms = none
  with_mark name (some vs) none = none
  with_mark name (some vs) (some ms) = some ((name, vs) ∷ ms)

  abbrev pub mark_test : Str → Option GradedTest → Option Marks → Option Marks
  mark_test id none ms = ms
  mark_test id (some g) ms =
      if is_empty g.target_name
      then ms
      else with_mark g.target_name (assign_test_required_by (suc (length store)) id []) ms

  -- The tests of the group in the order `ids`, as a loop over the map visits them.
  unfoldable pub assign_required_by : List Str → Dict GradedTest → Option Marks
  unfolding assign_test_required_by lookup
  assign_required_by [] ds = some []
  assign_required_by (id ∷ ids) ds = mark_test id (lookup id ds) (assign_required_by ids ds)

-- The ids of the group, what its tests were given and which targets need them.
abbrev pub Result : Type 0
Result = List Str × Dict GradedTest × Marks

abbrev pub with_marks : List Str → Dict GradedTest → Option Marks → Assembled InstanceError Result
with_marks group ds none = refused stuck
with_marks group ds (some ms) = assembled (group, ds, ms)

abbrev pub with_group :
    (List Str → List Str)
    → Dict Test
    → List Str
    → Assembled GradeError (Dict GradedTest)
    → Assembled InstanceError Result
with_group range store group (assembled ds) =
    with_marks group ds (assign_required_by range store (range group) ds)
with_group range store group (refused e) = refused (not_graded e)

-- `commands`: the commands of a test, by its id.
module _ (commands : Str → List Command) where
  -- The tests of one target, with `total`.
  unfoldable pub grade_tests :
      Str
      → List Str
      → List TargetTest
      → Dict GradedTest
      → ℕ
      → Assembled GradeError (Dict GradedTest × ℕ)
  unfolding has apply_to insert add64
  grade_tests name group [] ds total = assembled (ds, total)
  grade_tests name group (tt' ∷ ts) ds total =
      if not (has tt'.id group)
      then refused no_such_test
      else when_applied (apply_to tt' (commands tt'.id)) (λ s.
        grade_tests name group ts (insert tt'.id (record { target_name = name; scored = s }) ds)
          (add64 total tt'.points))

  abbrev pub check_total : Target → Dict GradedTest × ℕ → Assembled GradeError (Dict GradedTest)
  check_total t (ds, total) = if not (total == t.points) then refused wrong_total else assembled ds

  unfoldable pub grade_targets :
      List Str → List Target → Dict GradedTest → Assembled GradeError (Dict GradedTest)
  unfolding grade_tests
  grade_targets group [] ds = assembled ds
  grade_targets group (t ∷ ts) ds =
      then_grade (then_grade (grade_tests t.name group t.tests ds 0) (check_total t))
        (grade_targets group ts)

  abbrev pub graded_group :
      (List Str → List Str) → List Target → GroupResult → Assembled InstanceError Result
  graded_group range ts (made store group) =
      with_group range store group (grade_targets group ts [])
  graded_group range ts (GroupResult.failed errs) = refused (no_group errs)
  graded_group range ts looping = refused stuck

  module _ (cwd : Str) (glob : Str → Option (List Str)) (range : List Str → List Str)
      (test_dir : Str) (loaded : List Loaded) where
    abbrev pub configured : List Str → GroupConfig
    configured ids = record { use_deps = true; tests = ids; test_dir = test_dir }

    abbrev pub group_of : List Target → Option (List Str) → Assembled InstanceError Result
    group_of ts none = refused duplicate_test
    group_of ts (some ids) =
        graded_group range ts (group_from_config cwd glob range (configured ids) loaded)

    unfoldable pub instance_of : Dict Target → Target → Assembled InstanceError Result
    unfolding all_targets add_targets grade_targets group_from_config assign_required_by
    instance_of env t = let ts = all_targets env t in group_of ts (add_targets ts [])
