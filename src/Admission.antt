-- ===== src/Admission.antt =====
-- test161-server/submissions.go and submission.go: which requests for a submission the server admits.
-- The users are authenticated against the database, staff and students do not work together, and the
-- server can be closed for students, for a target, or altogether.
pub mod Users
pub mod Roles
pub mod Server
pub mod Groups
pub mod Admitted
mod Samples
use test.Base.{
  ℕ, zero, suc, ◌+◌, ◌≡◌, Bool, true, false, not, ◌&&◌, ◌||◌, List, [], ◌∷◌, Option, none, some,
  Str, codes, str_eq, has, has_prefix, Dict, has_key, is_empty, length, ltb, ◌==◌, if◌then◌else◌,
}
use test.Version.{ProgramVersion, Comparison, older, same, newer, compare_to}
use test.Targets.{Target}
use test.Intake.{ManagerStatus, accepting, not_accepting, staff_only}

pub record SubmissionUserInfo : Type 0 where
  pub email : Str
  pub token : Str

pub record SubmissionRequest : Type 0 where
  pub target : Str
  pub users : List SubmissionUserInfo
  pub repository : Str
  pub commit_id : Str
  pub client_version : ProgramVersion

-- `cached`: the source's `isStaff`, 0 for not looked up yet, 1 for a student, 2 for staff.
pub record Student : Type 0 where
  pub email : Str
  pub token : Str
  pub cached : ℕ

-- The records of students for an email and a token, and the number of staff users for an email;
-- `none` is an error of `Retrieve`. The records do not hold the cached flag, which starts at 0.
pub record PersistenceManager : Type 0 where
  pub can_retrieve : Bool
  pub students : Str → Str → Option (List SubmissionUserInfo)
  pub staff : Str → Option ℕ

pub record TestEnvironment : Type 0 where
  pub targets : Dict Target
  pub persistence : Option PersistenceManager
  pub cache_dir : Str

pub data Refusal : Type 0 where
  http_repository invalid_target no_commit no_users : Refusal
  lookup_failed unauthenticated staff_unknown mixed_staff : Refusal
  version_too_old closed staff_only_now target_disabled target_staff_only : Refusal

pub data Result (A : Type 0) : Type 0 where
  refused : Refusal → Result A
  passed : A → Result A

abbrev pub retrieved : SubmissionUserInfo → Student
retrieved r = record { email = r.email; token = r.token; cached = 0 }

-- Exactly one record, and the right one.
unfoldable pub authenticate : SubmissionUserInfo → Option (List SubmissionUserInfo) → Result Student
authenticate u none = refused lookup_failed
authenticate u (some []) = refused unauthenticated
authenticate u (some (r ∷ [])) =
    if not (str_eq r.email u.email) || not (str_eq r.token u.token)
    then refused unauthenticated
    else passed (retrieved r)
authenticate u (some (r ∷ q ∷ rs)) = refused unauthenticated

unfoldable pub get_student : PersistenceManager → SubmissionUserInfo → Result Student
unfolding authenticate
get_student p u = authenticate u (p.students u.email u.token)

abbrev pub add_student : Result Student → Result (List Student) → Result (List Student)
add_student (refused e) rest = refused e
add_student (passed s) (refused e) = refused e
add_student (passed s) (passed ss) = passed (s ∷ ss)

unfoldable pub validate_user_records :
    PersistenceManager → List SubmissionUserInfo → Result (List Student)
unfolding get_student
validate_user_records p [] = passed []
validate_user_records p (u ∷ us) = add_student (get_student p u) (validate_user_records p us)

abbrev pub staff_found : Student → Option ℕ → Option Bool × Student
staff_found s none = (none, s)
staff_found s (some zero) = (some false, record s { cached = 1 })
staff_found s (some (suc n)) = (some true, record s { cached = 2 })

abbrev pub find_staff : Option PersistenceManager → Student → Option Bool × Student
find_staff none s = (none, s)
find_staff (some p) s = if p.can_retrieve then staff_found s (p.staff s.email) else (none, s)

-- `none`: an error.
unfoldable pub is_staff : Option PersistenceManager → Student → Option Bool × Student
is_staff p s = if s.cached == 0 then find_staff p s else (some (s.cached == 2), s)

abbrev pub tally : Option Bool × Student → Result (ℕ × List Student) → Result (ℕ × List Student)
tally (none, s) rest = refused staff_unknown
tally (some b, s) (refused e) = refused e
tally (some true, s) (passed (n, ss)) = passed (suc n, s ∷ ss)
tally (some false, s) (passed (n, ss)) = passed (n, s ∷ ss)

-- `staffCnt`, and the students with their flags cached.
unfoldable pub count_staff : Option PersistenceManager → List Student → Result (ℕ × List Student)
unfolding is_staff
count_staff p [] = passed (0, [])
count_staff p (s ∷ ss) = tally (is_staff p s) (count_staff p ss)

abbrev pub all_or_nothing : Result (ℕ × List Student) → Result (List Student)
all_or_nothing (refused e) = refused e
all_or_nothing (passed (n, ss)) =
    if ltb 0 n && ltb n (length ss) then refused mixed_staff else passed ss

unfoldable pub users_of :
    Option PersistenceManager → List SubmissionUserInfo → Result (List Student)
unfolding validate_user_records
users_of none us = passed []
users_of (some p) us = if p.can_retrieve then validate_user_records p us else passed []

abbrev pub check_flags : Option PersistenceManager → Result (List Student) → Result (List Student)
check_flags p (refused e) = refused e
check_flags p (passed ss) = all_or_nothing (count_staff p ss)

unfoldable pub validate_users :
    Option PersistenceManager → List SubmissionUserInfo → Result (List Student)
unfolding users_of count_staff
validate_users p us = if is_empty us then refused no_users else check_flags p (users_of p us)

unfoldable pub validate : TestEnvironment → SubmissionRequest → Result (List Student)
unfolding validate_users has_key has_prefix
validate env req =
    if has_prefix req.repository (codes "http")
    then refused http_repository
    else if not (has_key req.target env.targets)
    then refused invalid_target
    else if is_empty req.repository || is_empty req.commit_id
    then refused no_commit
    else validate_users env.persistence req.users

pub record SubmissionServer : Type 0 where
  pub min_client : ProgramVersion
  pub staff_only_targets : List Str
  pub disabled_targets : List Str
  pub env : TestEnvironment
  pub status : ManagerStatus

abbrev pub yes : Option Bool → Bool
yes none = false
yes (some b) = b

-- `students[0].IsStaff(env)` of `NewSubmission`, if there is a student.
abbrev pub first_is_staff : Option PersistenceManager → List Student → Bool
first_is_staff p [] = false
first_is_staff p (s ∷ ss) = yes ((is_staff p s).0)

-- Both loops of the server over `IsStaff`, whose errors they drop. They stop at the first student.
unfoldable pub all_staff : Option PersistenceManager → List Student → Bool × List Student
unfolding is_staff
all_staff p [] = (true, [])
all_staff p (s ∷ ss) =
    let rest = all_staff p ss in
    let r = is_staff p s in if yes (r.0) then (rest.0, r.1 ∷ rest.1) else (false, r.1 ∷ ss)

abbrev pub refuse_students :
    ManagerStatus → Bool × List Student → List Student → Option Refusal × List Student
refuse_students staff_only r ss = (if r.0 then none else some staff_only_now, r.1)
refuse_students accepting r ss = (none, ss)
refuse_students not_accepting r ss = (none, ss)

unfoldable pub check_staff_only_submission :
    SubmissionServer → List Student → Option Refusal × List Student
unfolding all_staff
check_staff_only_submission s ss = refuse_students s.status (all_staff s.env.persistence ss) ss

unfoldable pub check_target_blacklists : SubmissionServer → List Student → Str → Option Refusal
unfolding all_staff has
check_target_blacklists s ss name =
    if has name s.disabled_targets
    then some target_disabled
    else if not ((all_staff s.env.persistence ss).0) && has name s.staff_only_targets
    then some target_staff_only
    else none

-- The status code, with the error.
abbrev pub Response : Type 0
Response = ℕ × Option Refusal

abbrev pub answered : Option Refusal → Response
answered none = (200, none)
answered (some e) = (503, some e)

abbrev pub blacklist_response : SubmissionServer → Str → Option Refusal × List Student → Response
blacklist_response s name (some e, ss) = (503, some e)
blacklist_response s name (none, ss) = answered (check_target_blacklists s ss name)

abbrev pub users_response : SubmissionServer → Str → Result (List Student) → Response
users_response s name (refused e) = (422, some e)
users_response s name (passed ss) = blacklist_response s name (check_staff_only_submission s ss)

abbrev pub is_older : Comparison → Bool
is_older older = true
is_older same = false
is_older newer = false

abbrev pub is_closed : ManagerStatus → Bool
is_closed not_accepting = true
is_closed accepting = false
is_closed staff_only = false

unfoldable pub validate_request : SubmissionServer → SubmissionRequest → Response
unfolding compare_to validate check_staff_only_submission check_target_blacklists
validate_request s req =
    if is_older (compare_to req.client_version s.min_client)
    then (406, some version_too_old)
    else if is_closed s.status
    then (503, some closed)
    else users_response s req.target (validate s.env req)
