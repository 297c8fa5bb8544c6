-- ===== src/NewSubmission/Samples.antt =====
-- A submission to a subtarget, which counts for its metatarget.
use test.Base.{
  ℕ, ◌≡◌, refl, Bool, true, false, List, [], ◌∷◌, Option, none, some, Str, codes, str_eq,
}
use test.Targets.{Target}
use test.Admission.{SubmissionUserInfo, PersistenceManager, TestEnvironment, SubmissionRequest}
use test.TargetGroup.{Assembled, assembled, InstanceError}
use test.TargetGroup
use test.NewSubmission.{BuildConf, Creation, created, failed, new_submission}
use test.NewSubmission.Created.{Made, new_submission-Made}

program : Unit {0}
unfolding new_submission str_eq
program = tt

abbrev user : SubmissionUserInfo
user = record { email = codes "t@x"; token = codes "1" }

abbrev database : PersistenceManager
database = record {
  can_retrieve = true;
  students = λ email token. some (user ∷ []);
  staff = λ email. some 1;
}

abbrev smaller : Target
smaller = record {
  name = codes "asst2.1";
  active = codes "true";
  version = 1;
  kind = codes "asst";
  points = 10;
  kconfig = codes "ASST2";
  requires_userland = true;
  required_commit = [];
  tests = [];
  is_meta = false;
  sub_names = [];
  meta_name = codes "asst2";
  leaderboard = codes "true";
  meta_target = some (codes "asst2");
  previous = [];
}

abbrev whole : Target
whole = record smaller { name = codes "asst2"; points = 30; is_meta = true; meta_target = none }

abbrev env : TestEnvironment
env = record {
  targets = (codes "asst2.1", smaller) ∷ (codes "asst2", whole) ∷ [];
  persistence = some database;
  cache_dir = [];
}

abbrev request : SubmissionRequest
request = record {
  target = codes "asst2.1";
  users = user ∷ [];
  repository = codes "git@x:os161";
  commit_id = codes "abc";
  client_version = record { major = 1; minor = 2; revision = 0 };
}

abbrev build : BuildConf → Option Str
build conf = some (codes "b1")

abbrev empty_group : Target → Assembled InstanceError TargetGroup.Result
empty_group t = assembled ([], [], [])

abbrev creation : Creation
creation = new_submission ((codes "asst2", 25) ∷ []) build empty_group env request (codes "s1")

abbrev summary : Creation → List Str × ℕ × ℕ × Bool
summary (failed e) = ([], 0, 0, false)
summary (created n ss) = (
  n.submission.target_name ∷ n.submitted_target ∷ [],
  n.submission.points_available,
  n.submission.estimated_score,
  n.is_staff,
)

summary_lem : summary creation ≡ (codes "asst2" ∷ codes "asst2.1" ∷ [], 30, 25, true)
unfolding program
summary_lem = refl

new_submission-Made_example :
    Made ((codes "asst2", 25) ∷ []) build empty_group env request (codes "s1") creation
new_submission-Made_example =
    new_submission-Made ((codes "asst2", 25) ∷ []) build empty_group env request (codes "s1")
