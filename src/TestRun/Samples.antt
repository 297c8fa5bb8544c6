-- ===== src/TestRun/Samples.antt =====
-- A test with a khu command, a test program and the shutdown, and the theorems on it.
use test.Base.{
  ℕ, ◌*◌, ◌/◌, ◌≡◌, refl, Bool, true, false, List, [], ◌∷◌, Option, none, some, Str, codes, All,
  arith, str_eq, has_key,
}
use test.CommandLine.{scan, split_command}
use test.Grading.{Command, CommandStatus, OutputLine, opt_no, evaluate}
use test.Runner.{TestResult}
use test.TestRun.{
  Test, Turn, Flow, no_error, timeout, turn, run_test, scoring_entire, scoring_partial,
}
use test.TestRun.Ending.{Graded, run_test-Graded}
use test.TestRun.Ends.{run_test-total}
use test.TestRun.Leaks.{check_leaks, khu_number}
use test.TestRun.Leaks.Deduction.{Deducted, MaySay, Says, check_leaks-Deducted}

exact_points : ℕ → ℕ → ℕ → ℕ
exact_points a e t = a * e / t

program : Unit {0}
unfolding turn run_test check_leaks evaluate exact_points scan split_command str_eq has_key
    khu_number
program = tt

abbrev command : Str → Bool → Command
command line prompt = record {
  input = line;
  has_prompt = prompt;
  panic = opt_no;
  times_out = opt_no;
  timed_out = false;
  expected = [];
  output = [];
  points_available = 5;
  points_earned = 0;
  status = CommandStatus.idle;
}

abbrev says : Str → OutputLine
says l = record { stamped = true; buffer = l; line = l; trusted = false; key_name = codes "" }

abbrev sample : Str → Test
sample method = record {
  past = [];
  current = command (codes "khu") true;
  next = command (codes "p /testbin/add") true ∷ command (codes "q") false ∷ [];
  all_correct = true;
  statuses = [];
  result = TestResult.running;
  scoring_method = method;
  points_available = 10;
  points_earned = 0;
  mem_leak_points = 2;
  mem_leak_deducted = 0;
  mem_leak_checked = false;
}

abbrev prompts : Turn
prompts = record {
  sent = true;
  stats_on = true;
  stats_failed = false;
  lines = says (codes "khu: 4096") ∷ [];
  timed_out = false;
  reply = no_error;
  groups = 1;
  monitor_error = false;
  still_on = true;
  stats_error = false;
}

abbrev dies : Turn
dies = record prompts { reply = timeout; groups = 0 }

abbrev result_points : Option Test → Option (TestResult × ℕ)
result_points none = none
result_points (some t) = some (t.result, t.points_earned)

runs_to_the_end :
    result_points
      (run_test [] exact_points (prompts ∷ prompts ∷ prompts ∷ []) (sample scoring_entire))
    ≡ some (TestResult.correct, 10)
unfolding program
runs_to_the_end = refl

times_out_early :
    result_points (run_test [] exact_points (prompts ∷ dies ∷ []) (sample scoring_partial))
    ≡ some (TestResult.incorrect, 5)
unfolding program
times_out_early = refl

abbrev or_else : Option Test → Test → Test
or_else none t = t
or_else (some t) s = t

abbrev finished : Test
finished =
    or_else (run_test [] exact_points (prompts ∷ prompts ∷ prompts ∷ []) (sample scoring_entire))
      (sample scoring_entire)

abbrev after_one : Option (Test × Flow) → Test
after_one none = sample scoring_partial
after_one (some r) = r.0

abbrev second : Test
second = after_one (turn [] exact_points prompts (sample scoring_partial))

run_test-Graded_example : Graded (sample scoring_entire) finished
unfolding program
run_test-Graded_example =
    run_test-Graded [] exact_points (prompts ∷ prompts ∷ prompts ∷ []) (sample scoring_entire)
      finished refl refl

run_test-total_example :
    (t : Test) × (run_test [] exact_points (prompts ∷ dies ∷ prompts ∷ []) (sample scoring_entire)
      ≡ some t)
unfolding program
run_test-total_example =
    run_test-total [] exact_points (prompts ∷ dies ∷ prompts ∷ []) (sample scoring_entire)
      ((codes "khu", refl), ((codes "/testbin/add", refl), ((codes "q", refl), tt))) refl
      (omega arith)

abbrev khu_says : Str → Command
khu_says l = record (command (codes "khu") true) { output = says l ∷ [] }

abbrev leaking : Test
leaking = record (sample scoring_entire) { points_earned = 1 }

abbrev leaked : List Command
leaked = khu_says (codes "khu: 4096") ∷ khu_says (codes "khu: 4100") ∷ []

abbrev deducted : Test
deducted = or_else (check_leaks [] leaked 0 leaking) leaking

deducted_points : ◌≡◌ {A = ℕ × ℕ} (deducted.points_earned, deducted.mem_leak_deducted) (0, 1)
unfolding program
deducted_points = refl

check_leaks-Deducted_example :
    Deducted leaking deducted
    × (deducted.statuses ≡ leaking.statuses → (n : ℕ) × All (MaySay [] n) leaked)
    × ((n : ℕ)
        → All (Says [] n) leaked
        → (deducted.statuses ≡ leaking.statuses) × (deducted.points_earned ≡ leaking.points_earned))
unfolding program
check_leaks-Deducted_example = check_leaks-Deducted [] leaked leaking deducted refl refl
