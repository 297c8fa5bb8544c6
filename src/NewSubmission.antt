-- ===== src/NewSubmission.antt =====
-- submission.go: `NewSubmission` up to the lock of the students, which makes a submission of a request.
pub mod Created
mod Samples
use test.Base.{
  ℕ, ◌≡◌, Bool, true, false, not, ◌||◌, List, [], ◌∷◌, Option, none, some, Str, Dict, lookup,
  if◌then◌else◌,
}
use test.Targets.{Target}
use test.Submissions.{Submission, submitted}
use test.Admission.{
  SubmissionUserInfo, SubmissionRequest, Student, PersistenceManager, TestEnvironment, Refusal,
  refused, passed, is_staff, validate, first_is_staff,
}
use test.Admission
use test.TargetGroup.{Assembled, assembled, InstanceError}
use test.TargetGroup

pub record BuildConf : Type 0 where
  pub repo : Str
  pub commit_id : Str
  pub kconfig : Str
  pub requires_userland : Bool
  pub required_commit : Str
  pub cache_dir : Str
  pub overlay : Str
  pub users : List Str

pub data CreateError : Type 0 where
  not_valid : Refusal → CreateError
  no_build no_instance no_target : CreateError

-- A new submission, with the fields that only its creation sets.
pub record NewSubmission : Type 0 where
  pub submission : Submission
  pub group : TargetGroup.Result
  pub submitted_target : Str
  pub users : List Str
  pub is_staff : Bool

pub data Creation : Type 0 where
  created : NewSubmission → List Student → Creation
  failed : CreateError → Creation

abbrev pub emails : List SubmissionUserInfo → List Str
emails [] = []
emails (u ∷ us) = u.email ∷ emails us

abbrev pub build_conf : TestEnvironment → SubmissionRequest → Target → BuildConf
build_conf env req t = record {
  repo = req.repository;
  commit_id = req.commit_id;
  kconfig = t.kconfig;
  requires_userland = t.requires_userland;
  required_commit = t.required_commit;
  cache_dir = env.cache_dir;
  overlay = t.name;
  users = emails req.users;
}

abbrev pub or_zero : Option ℕ → ℕ
or_zero none = 0
or_zero (some n) = n

-- The metatarget that a target points to, by its name.
unfoldable pub meta_of : Dict Target → Option Str → Option Target
unfolding lookup
meta_of env none = none
meta_of env (some n) = lookup n env

-- The target that a submission counts for.
abbrev pub counted_target : Target → Option Target → Target
counted_target t none = t
counted_target t (some m) = if not t.is_meta then m else t

abbrev pub redirected : Option Target → Bool
redirected none = false
redirected (some m) = true

-- `estimated`: `EstimatedScores`. `build`: the id of the build test that `ToBuildTest` makes.
-- `instance`: `Target.Instance`.
module _ (estimated : Dict ℕ) (build : BuildConf → Option Str)
    (instance_of : Target → Assembled InstanceError TargetGroup.Result) (env : TestEnvironment)
    (req : SubmissionRequest) (id : Str) where
  unfoldable pub details : Target → Str → Submission
  unfolding meta_of lookup
  details t build_id =
      let c = counted_target t (meta_of env.targets t.meta_target) in
      record {
        id = id;
        target_name = c.name;
        target_version = c.version;
        target_type = t.kind;
        is_meta = t.is_meta || redirected (meta_of env.targets t.meta_target);
        points_available = c.points;
        status = submitted;
        score = 0;
        estimated_score = or_zero (lookup c.name estimated);
        test_ids = build_id ∷ [];
        sub_ids = [];
      }

  abbrev pub with_instance :
      List Student → Target → Str → Assembled InstanceError TargetGroup.Result → Creation
  with_instance ss t build_id (assembled g) =
      created
        (record {
          submission = details t build_id;
          group = g;
          submitted_target = t.name;
          users = emails req.users;
          is_staff = first_is_staff env.persistence ss;
        })
        ss
  with_instance ss t build_id (TargetGroup.refused e) = failed no_instance

  abbrev pub with_build : List Student → Target → Option Str → Creation
  with_build ss t none = failed no_build
  with_build ss t (some build_id) = with_instance ss t build_id (instance_of t)

  -- `no_target` stands for a panic on a target that is not known.
  abbrev pub with_target : List Student → Option Target → Creation
  with_target ss none = failed no_target
  with_target ss (some t) = with_build ss t (build (build_conf env req t))

  abbrev pub with_students : Admission.Result (List Student) → Creation
  with_students (refused e) = failed (not_valid e)
  with_students (passed ss) = with_target ss (lookup req.target env.targets)

  unfoldable pub new_submission : Creation
  unfolding validate is_staff details lookup
  new_submission = with_students (validate env req)
