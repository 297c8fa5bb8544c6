-- ===== src/Admission/Samples.antt =====
-- A staff member and a student, and a server that only staff may use.
use test.Base.{
  ℕ, ◌≡◌, ◌↔◌, refl, true, false, List, [], ◌∷◌, none, some, codes, str_eq, if◌then◌else◌,
}
use test.Version.{ProgramVersion}
use test.Intake.{staff_only}
use test.Targets.{Target}
use test.Admission.{
  SubmissionUserInfo, PersistenceManager, SubmissionRequest, SubmissionServer, validate_request,
  mixed_staff, staff_only_now, version_too_old,
}
use test.Admission.Admitted.{Admitted, validate_request_iff}

program : Unit {0}
unfolding validate_request str_eq
program = tt

abbrev teacher : SubmissionUserInfo
teacher = record { email = codes "t@x"; token = codes "1" }

abbrev pupil : SubmissionUserInfo
pupil = record { email = codes "p@x"; token = codes "2" }

abbrev database : PersistenceManager
database = record {
  can_retrieve = true;
  students =
      λ email token. if str_eq email (codes "t@x") then some (teacher ∷ []) else some (pupil ∷ []);
  staff = λ email. if str_eq email (codes "t@x") then some 1 else some 0;
}

abbrev target : Target
target = record {
  name = codes "asst1";
  active = codes "true";
  version = 1;
  kind = codes "asst";
  points = 50;
  kconfig = codes "ASST1";
  requires_userland = false;
  required_commit = [];
  tests = [];
  is_meta = false;
  sub_names = [];
  meta_name = [];
  leaderboard = codes "true";
  meta_target = none;
  previous = [];
}

abbrev version : ℕ → ProgramVersion
version n = record { major = 1; minor = n; revision = 0 }

abbrev server : SubmissionServer
server = record {
  min_client = version 2;
  staff_only_targets = [];
  disabled_targets = codes "asst3" ∷ [];
  env = record {
    targets = (codes "asst1", target) ∷ [];
    persistence = some database;
    cache_dir = [];
  };
  status = staff_only;
}

abbrev request : List SubmissionUserInfo → ℕ → SubmissionRequest
request users minor = record {
  target = codes "asst1";
  users = users;
  repository = codes "git@x:os161";
  commit_id = codes "abc";
  client_version = version minor;
}

validate_request-staff : validate_request server (request (teacher ∷ []) 2) ≡ (200, none)
unfolding program
validate_request-staff = refl

validate_request-student :
    validate_request server (request (pupil ∷ []) 3) ≡ (503, some staff_only_now)
unfolding program
validate_request-student = refl

validate_request-mixed :
    validate_request server (request (pupil ∷ teacher ∷ []) 3) ≡ (422, some mixed_staff)
unfolding program
validate_request-mixed = refl

validate_request-old :
    validate_request server (request (teacher ∷ []) 1) ≡ (406, some version_too_old)
unfolding program
validate_request-old = refl

validate_request_iff_example :
    (validate_request server (request (teacher ∷ []) 2) ≡ (200, none))
    ↔ Admitted server (request (teacher ∷ []) 2)
validate_request_iff_example = validate_request_iff server (request (teacher ∷ []) 2)
