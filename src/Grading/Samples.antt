-- ===== src/Grading/Samples.antt =====
-- A forktest command with its output, and the grading theorems on it.
use test.Base.{
  ℕ, ◌*◌, ◌/◌, ◌≡◌, ◌↔◌, refl, true, false, List, [], ◌∷◌, some, Str, codes, str_eq, has_key, arith,
  is_empty,
}
use test.CommandLine.{scan, split_command}
use test.Grading.{OutputLine, Command, running, incorrect, opt_no, evaluate, unmatched, KeyMap}
use test.Grading.Match.{Shows, unmatched_iff}
use test.Grading.Points.{CreditLaws, Earns, evaluate-le-points}

-- The quotient rounded down, in place of the float32 expression.
exact_points : ℕ → ℕ → ℕ → ℕ
exact_points a e t = a * e / t

exact_points-CreditLaws : CreditLaws exact_points
unfolding exact_points
exact_points-CreditLaws = record {
  whole = λ a n lt pos. grind arith;
  part_le = λ a e t lt le. grind arith;
}

abbrev keys : KeyMap
keys = (codes "/testbin/forktest", codes "secret") ∷ []

abbrev says : Str → OutputLine
says l = record {
  stamped = true;
  buffer = l;
  line = l;
  trusted = true;
  key_name = codes "/testbin/forktest";
}

abbrev forktest : List OutputLine → Command
forktest out = record {
  input = codes "p /testbin/forktest";
  has_prompt = true;
  panic = opt_no;
  times_out = opt_no;
  timed_out = false;
  expected =
      record {
        text = codes "/testbin/forktest: SUCCESS";
        trusted = true;
        key_name = codes "/testbin/forktest";
      }
      ∷ [];
  output = out;
  points_available = 20;
  points_earned = 0;
  status = running;
}

program : Unit {0}
unfolding evaluate exact_points scan split_command str_eq has_key
program = tt

abbrev succeeds : Command
succeeds = forktest (says (codes "starting") ∷ says (codes "/testbin/forktest: SUCCESS") ∷ [])

abbrev partly_done : Command
partly_done = forktest (says (codes "forktest: PARTIAL CREDIT 6 OF 10") ∷ [])

partial_points :
    evaluate keys exact_points false partly_done
    ≡ some (record partly_done { points_earned = 12; status = incorrect })
unfolding program
partial_points = refl

evaluate-le-points_example :
    Earns keys partly_done (record partly_done { points_earned = 12; status = incorrect })
unfolding program
evaluate-le-points_example =
    evaluate-le-points keys exact_points exact_points-CreditLaws false partly_done
      (record partly_done { points_earned = 12; status = incorrect }) (omega arith) refl

unmatched_iff_example :
    (is_empty (unmatched keys succeeds.expected succeeds.output) ≡ true)
    ↔ Shows keys succeeds.expected succeeds.output
unmatched_iff_example = unmatched_iff keys succeeds.expected succeeds.output
