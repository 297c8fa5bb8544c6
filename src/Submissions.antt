-- ===== src/Submissions.antt =====
-- submission.go: how the results of tests become the scores of a submission and of its parts.
pub mod Scores
mod Samples
use test.Base.{
  add64, ℕ, ◌+◌, ◌≡◌, Bool, true, false, not, ◌&&◌, ◌||◌, List, [], ◌∷◌, ◌++◌, Option, none, some,
  Str, codes, str_eq, has, Dict, lookup, is_empty, ◌==◌, if◌then◌else◌,
}
use test.Runner.{TestResult}
use test.Targets.{Target}

pub data SubmissionStatus : Type 0 where
  submitted building running completed aborted : SubmissionStatus

pub record Submission : Type 0 where
  pub id : Str
  pub target_name : Str
  pub target_version : ℕ
  pub target_type : Str
  pub is_meta : Bool
  pub points_available : ℕ
  pub status : SubmissionStatus
  pub score : ℕ
  pub estimated_score : ℕ
  pub test_ids : List Str
  pub sub_ids : List Str

-- A test of the group, with the targets that require it.
pub record GroupTest : Type 0 where
  pub id : Str
  pub required_by : List Str

-- What the runner reports of a test. Its error only goes to a list of messages.
pub record JobResult : Type 0 where
  pub result : TestResult
  pub points_earned : ℕ
  pub target_name : Str

unfoldable pub is_running : SubmissionStatus → Bool
is_running running = true
is_running _ = false

unfoldable pub is_completed : SubmissionStatus → Bool
is_completed completed = true
is_completed _ = false

unfoldable pub is_abort : TestResult → Bool
is_abort TestResult.abort = true
is_abort _ = false

-- Whether the submission counts in the statistics.
unfoldable pub valid_result : Submission → Bool
unfolding is_completed
valid_result s =
    is_completed s.status && (str_eq s.target_type (codes "asst") || s.score == s.points_available)

unfoldable pub required_ids : Str → List GroupTest → List Str
required_ids name [] = []
required_ids name (t ∷ ts) =
    let rest = required_ids name ts in if has name t.required_by then t.id ∷ rest else rest

-- `s.TestIDs[0]`, the build test: out of range is a panic.
abbrev first_id : List Str → Option Str
first_id [] = none
first_id (i ∷ is) = some i

abbrev or_zero : Option ℕ → ℕ
or_zero none = 0
or_zero (some n) = n

abbrev add_part : Option Submission → Option (List Submission) → Option (List Submission)
add_part none r = none
add_part (some s) none = none
add_part (some s) (some r) = some (s ∷ r)

-- The results loop stores the submission and its parts.
abbrev pub Scoreboard : Type 0
Scoreboard = Submission × List Submission

module _ (tests : List GroupTest) (estimated : Dict ℕ) where
  unfoldable pub clone_with : Submission → Target → Str → Option Str → Option Submission
  unfolding required_ids
  clone_with s target id none = none
  clone_with s target id (some build) = some (record s {
    id = id;
    target_name = target.name;
    target_version = target.version;
    is_meta = false;
    points_available = target.points;
    score = 0;
    estimated_score = or_zero (lookup target.name estimated);
    test_ids = build ∷ required_ids target.name tests;
    sub_ids = [];
  })

  -- `id`: the new UUID.
  unfoldable pub clone_and_update : Submission → Target → Str → Option Submission
  unfolding clone_with
  clone_and_update s target id = clone_with s target id (first_id s.test_ids)

  -- One part for each target, with the UUIDs that are drawn on the way.
  unfoldable pub clone_all : Submission → List (Target × Str) → Option (List Submission)
  unfolding clone_and_update
  clone_all s [] = some []
  clone_all s ((t, id) ∷ ts) = add_part (clone_and_update s t id) (clone_all s ts)

  -- `orig` and `previous`: the target submitted to and its previous subtargets. `none`: a panic.
  unfoldable pub split : Submission → Target × Str → List (Target × Str) → Option (List Submission)
  unfolding clone_all
  split s orig previous =
      if not s.is_meta
      then some []
      else if not (orig.0).is_meta
      then clone_all s (orig ∷ previous)
      else clone_all s previous

unfoldable pub abort : Submission → Submission
abort s = record s { status = aborted; score = 0 }

unfoldable pub update_score : JobResult → Submission → Submission
unfolding add64
update_score r s = record s { score = add64 s.score r.points_earned }

unfoldable pub abort_all : List Submission → List Submission
unfolding abort
abort_all [] = []
abort_all (s ∷ ss) = abort s ∷ abort_all ss

-- The parts whose target the test belongs to.
unfoldable pub update_parts : JobResult → List Submission → List Submission
unfolding update_score
update_parts r [] = []
update_parts r (s ∷ ss) =
    (if str_eq r.target_name s.target_name then update_score r s else s) ∷ update_parts r ss

-- The body of the results loop.
unfoldable pub take_result : JobResult → Scoreboard → Scoreboard
unfolding abort abort_all update_score update_parts is_running is_abort
take_result r (s, parts) =
    if is_running s.status
    then (if is_abort r.result
        then (abort s, abort_all parts)
        else (update_score r s, update_parts r parts))
    else (s, parts)

unfoldable pub take_results : List JobResult → Scoreboard → Scoreboard
unfolding take_result
take_results [] b = b
take_results (r ∷ rs) b = take_results rs (take_result r b)

-- The status after the run.
unfoldable pub finish_status : Submission → Submission
unfolding is_running
finish_status s = if is_running s.status then record s { status = completed } else s
