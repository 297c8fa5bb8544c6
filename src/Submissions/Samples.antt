-- ===== src/Submissions/Samples.antt =====
-- A metasubmission with two parts and the results of its tests.
use test.Base.{
  ℕ, ◌%◌, ◌^◌, ◌≡◌, refl, true, false, List, [], ◌∷◌, Option, none, some, Str, codes, str_eq, has,
  lookup, sum_by,
}
use test.Runner.{TestResult}
use test.Targets.{Target}
use test.Submissions.{
  Submission, running, aborted, GroupTest, JobResult, split, take_results, is_abort,
}
use test.Submissions.Scores.{split-results-score, abort-no-score}

program : Unit {0}
unfolding split take_results is_abort lookup has str_eq
program = tt

abbrev target : Str → ℕ → Target
target name points = record {
  name = name;
  active = codes "true";
  version = 1;
  kind = codes "asst";
  points = points;
  kconfig = codes "ASST2";
  requires_userland = true;
  required_commit = [];
  tests = [];
  is_meta = false;
  sub_names = [];
  meta_name = codes "asst2";
  leaderboard = codes "true";
  meta_target = none;
  previous = [];
}

abbrev submission : Submission
submission = record {
  id = codes "id0";
  target_name = codes "asst2";
  target_version = 1;
  target_type = codes "asst";
  is_meta = true;
  points_available = 30;
  status = running;
  score = 0;
  estimated_score = 0;
  test_ids = codes "build" ∷ codes "t1" ∷ codes "t2" ∷ [];
  sub_ids = [];
}

abbrev group : List GroupTest
group =
    record { id = codes "t1"; required_by = codes "asst2.1" ∷ codes "asst2.2" ∷ [] }
    ∷ record { id = codes "t2"; required_by = codes "asst2.2" ∷ [] }
    ∷ []

abbrev or_none : Option (List Submission) → List Submission
or_none none = []
or_none (some xs) = xs

abbrev parts : List Submission
parts = or_none (
    split group [] submission (target (codes "asst2.2") 20, codes "id1")
      ((target (codes "asst2.1") 10, codes "id2") ∷ []))

abbrev earned : Str → ℕ → JobResult
earned name points = record {
  result = TestResult.correct;
  points_earned = points;
  target_name = name;
}

abbrev results : List JobResult
results = earned (codes "asst2.1") 10 ∷ earned (codes "asst2.2") 15 ∷ []

abbrev scores : List Submission → List (ℕ × List Str)
scores [] = []
scores (s ∷ ss) = (s.score, s.test_ids) ∷ scores ss

part_scores :
    scores (take_results results (submission, parts)).1
    ≡ (15, codes "build" ∷ codes "t1" ∷ codes "t2" ∷ [])
      ∷ (10, codes "build" ∷ codes "t1" ∷ [])
      ∷ []
unfolding program
part_scores = refl

split-results-score_example :
    (take_results results (submission, parts)).0.score % 2 ^ 64
    ≡ sum_by (λ (p : Submission). p.score) (take_results results (submission, parts)).1 % 2 ^ 64
unfolding program
split-results-score_example =
    split-results-score group [] submission (target (codes "asst2.2") 20, codes "id1")
      ((target (codes "asst2.1") 10, codes "id2") ∷ []) parts results refl refl (refl, (refl, tt))

abbrev broken : JobResult
broken = record { result = TestResult.abort; points_earned = 0; target_name = codes "asst2.1" }

abort-no-score_example :
    ((take_results (broken ∷ results) (submission, parts)).0.status ≡ aborted)
    × ((take_results (broken ∷ results) (submission, parts)).0.score ≡ 0)
    × (sum_by (λ (p : Submission). p.score) (take_results (broken ∷ results) (submission, parts)).1
        ≡ 0)
unfolding program
abort-no-score_example = abort-no-score broken results (submission, parts) refl refl
