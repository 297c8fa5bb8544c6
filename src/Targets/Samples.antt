-- ===== src/Targets/Samples.antt =====
-- A metatarget with two subtargets, and a target test on three commands.
use test.Base.{
  ℕ, ◌%◌, ◌^◌, ◌≡◌, refl, true, false, List, [], ◌∷◌, none, some, Str, codes, str_eq, has_prefix,
  Dict, lookup, All, sum_by, arith,
}
use test.CommandLine.{scan, split_command, replace_args}
use test.Grading.{Command, CommandStatus, opt_no}
use test.TestRun.{scoring_partial}
use test.Targets.{Target, TargetCommand, TargetTest, init_as_sub_target, init_as_meta_target}
use test.Targets.Linking.{Before, Fits, worth, init_as_sub_target-Before, init_as_meta_target-Fits}
use test.Targets.Apply.{Instance, Scored, Applied, done, failed, unassigned, fill, apply_to}
use test.Targets.Apply.Points.{apply_to-points}
use test.Targets.Apply.Coverage.{DoneAt, apply_to-DoneAt}

program : Unit {0}
unfolding lookup init_as_sub_target init_as_meta_target fill apply_to scan split_command
    replace_args str_eq has_prefix
program = tt

abbrev subtarget : Str → ℕ → Target
subtarget name points = record {
  name = name;
  active = codes "true";
  version = 1;
  kind = codes "asst";
  points = points;
  kconfig = codes "ASST2";
  requires_userland = true;
  required_commit = [];
  tests = [];
  is_meta = false;
  sub_names = [];
  meta_name = codes "asst2";
  leaderboard = codes "true";
  meta_target = none;
  previous = [];
}

abbrev whole : Target
whole = record (subtarget (codes "asst2") 30) {
  is_meta = true;
  meta_name = [];
  sub_names = codes "asst2.1" ∷ codes "asst2.2" ∷ [];
}

abbrev env : Dict Target
env =
    (codes "asst2.1", subtarget (codes "asst2.1") 10)
    ∷ (codes "asst2.2", subtarget (codes "asst2.2") 20)
    ∷ (codes "asst2", whole)
    ∷ []

abbrev last : Target
last = subtarget (codes "asst2.2") 20

init_as_sub_target-Before_example :
    (m : Target) × (lookup (codes "asst2") env ≡ some m)
    × (some (codes "asst2") ≡ some (codes "asst2"))
    × Before env (codes "asst2.2") m.sub_names (codes "asst2.1" ∷ [])
unfolding program
init_as_sub_target-Before_example =
    init_as_sub_target-Before env last
      (record last { meta_target = some (codes "asst2"); previous = codes "asst2.1" ∷ [] }) refl
      refl

init_as_meta_target-Fits_example :
    (whole.sub_names ≡ whole.sub_names)
    × All (Fits env whole) whole.sub_names
    × (30 ≡ sum_by (worth env) whole.sub_names % 2 ^ 64)
unfolding program
init_as_meta_target-Fits_example =
    init_as_meta_target-Fits env whole (record whole { previous = whole.sub_names }) refl

abbrev command : Str → Command
command line = record {
  input = line;
  has_prompt = true;
  panic = opt_no;
  times_out = opt_no;
  timed_out = false;
  expected = [];
  output = [];
  points_available = 0;
  points_earned = 0;
  status = CommandStatus.idle;
}

abbrev commands : List Command
commands =
    command (codes "boot")
    ∷ command (codes "p /testbin/add 1 2")
    ∷ command (codes "p /testbin/add 3 4")
    ∷ []

abbrev add : ℕ → ℕ → TargetCommand
add index points = record {
  id = codes "/testbin/add";
  index = index;
  points = points;
  args = codes "7" ∷ codes "8" ∷ [];
}

abbrev graded : TargetTest
graded = record {
  id = codes "add.t";
  scoring = scoring_partial;
  points = 15;
  mem_leak_points = 0;
  commands = add 2 10 ∷ add 1 5 ∷ [];
}

abbrev or_else : Applied Scored → Scored
or_else (done s) = s
or_else (failed e) = record {
  points_available = 0;
  scoring_method = [];
  mem_leak_points = 0;
  commands = [];
}

abbrev scored : Scored
scored = or_else (apply_to graded commands)

abbrev lines : List Instance → List (Str × ℕ)
lines [] = []
lines (i ∷ is) = (i.command.input, i.command.points_available) ∷ lines is

applied :
    lines scored.commands
    ≡ (codes "boot", 0) ∷ (codes "p /testbin/add 7 8", 5) ∷ (codes "p /testbin/add 7 8", 10) ∷ []
unfolding program
applied = refl

-- An index for one of two instances only.
half_covered :
    apply_to (record graded { points = 10; commands = add 2 10 ∷ [] }) commands ≡ failed unassigned
unfolding program
half_covered = refl

apply_to-points_example :
    (scored.points_available ≡ 15)
    × (sum_by (λ (i : Instance). i.command.points_available) scored.commands % 2 ^ 64 ≡ 15)
unfolding program
apply_to-points_example =
    apply_to-points graded commands scored refl (omega arith) (refl, (refl, (refl, tt))) refl

apply_to-DoneAt_example : All (λ (tc : TargetCommand). DoneAt scored.commands tc.id) graded.commands
unfolding program
apply_to-DoneAt_example = apply_to-DoneAt graded commands scored refl
