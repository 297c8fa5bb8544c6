-- ===== src/Admission/Admitted.antt =====
-- When the server admits a request.
use test.Base.{
  ℕ, ◌≡◌, ◌↔◌, ◌≢◌, refl, ◌∙◌, Bool, true, false, not, ◌||◌, List, none, some, Str, codes, has,
  has_prefix, has_key, is_empty, if◌then◌else◌, arith,
}
use test.Version.{Comparison, compare_to, older, same, newer}
use test.Version.Order.{Older, compare_to-Older}
use test.Intake.{ManagerStatus, accepting, not_accepting, staff_only}
use test.Admission.{
  Student, Refusal, Result, refused, passed, SubmissionRequest, SubmissionServer, validate_users,
  validate, check_staff_only_submission, blacklist_response, users_response, is_older, is_closed,
  validate_request, Response, version_too_old, closed, http_repository, invalid_target, no_commit,
}
use test.Admission.Server.{restricted, server_iff}
use test.Admission.Groups.{Permitted, refuse_guard, validate_users-Through, Permitted-Served}

-- What a request needs.
pub record Admitted (s : SubmissionServer) (req : SubmissionRequest) : Type 0 where
  pub recent : ¬ Older req.client_version s.min_client
  pub running : s.status ≢ not_accepting
  pub ssh : has_prefix req.repository (codes "http") ≡ false
  pub known_target : has_key req.target s.env.targets ≡ true
  pub repository : is_empty req.repository ≡ false
  pub commit : is_empty req.commit_id ≡ false
  pub users : is_empty req.users ≡ false
  pub enabled : has req.target s.disabled_targets ≡ false
  pub group : Permitted s.env.persistence (restricted s req.target) req.users

answer_guard :
    (b : Bool) (n : ℕ) (e : Refusal) (r : Response)
    → (if b then (n, some e) else r) ≡ (200, none)
    → (b ≡ false) × (r ≡ (200, none))
answer_guard true n e r h = absurd (cc h)
answer_guard false n e r h = (refl, h)

is_older_iff : (c : Comparison) → (is_older c ≡ false) ↔ (c ≢ older)
is_older_iff older = (λ h. absurd (cc h), λ h. absurd (h refl))
is_older_iff same = (λ h k. cc k, λ h. refl)
is_older_iff newer = (λ h k. cc k, λ h. refl)

is_closed_iff : (x : ManagerStatus) → (is_closed x ≡ false) ↔ (x ≢ not_accepting)
is_closed_iff not_accepting = (λ h. absurd (cc h), λ h. absurd (h refl))
is_closed_iff accepting = (λ h k. cc k, λ h. refl)
is_closed_iff staff_only = (λ h k. cc k, λ h. refl)

users_passed :
    (s : SubmissionServer) (name : Str) (r : Result (List Student))
    → users_response s name r ≡ (200, none)
    → (ss : List Student) × (r ≡ passed ss)
      × (blacklist_response s name (check_staff_only_submission s ss) ≡ (200, none))
users_passed s name (refused e) h = absurd (cc h)
users_passed s name (passed ss) h = (ss, refl, h)

module _ (s : SubmissionServer) (req : SubmissionRequest) where
  validate_request-Admitted : validate_request s req ≡ (200, none) → Admitted s req
  unfolding validate_request validate
  validate_request-Admitted h =
      let answer = users_response s req.target (validate s.env req) in
      let (o, h1) =
        answer_guard (is_older (compare_to req.client_version s.min_client)) 406 version_too_old
          (if is_closed s.status then (503, some closed) else answer) h in
      let (c, h2) = answer_guard (is_closed s.status) 503 closed answer h1 in
      let (ss, v, h3) = users_passed s req.target (validate s.env req) h2 in
      let (x, v1) = refuse_guard (has_prefix req.repository (codes "http")) _ _ ss v in
      let (t, v2) = refuse_guard (not (has_key req.target s.env.targets)) _ _ ss v1 in
      let (r, v3) = refuse_guard (is_empty req.repository || is_empty req.commit_id) _ _ ss v2 in
      let (u, (a, all, g, kind)) =
        validate_users-Through s.env.persistence req.users ss (restricted s req.target) v3 in
      let (d, may) = (server_iff s req.target ss a all).0 h3 in
      record {
        recent = λ old.
            (is_older_iff _).0 o ((compare_to-Older req.client_version s.min_client).1.1 old);
        running = (is_closed_iff s.status).0 c;
        ssh = x;
        known_target = ground arith;
        repository = ground arith;
        commit = ground arith;
        users = u;
        enabled = d;
        group = g may;
      }

  Admitted-validate_request : Admitted s req → validate_request s req ≡ (200, none)
  unfolding validate_request validate
  Admitted-validate_request m =
      let (ss, a, v, all, may) =
        Permitted-Served s.env.persistence req.users (restricted s req.target) m.users m.group in
      let recent : is_older (compare_to req.client_version s.min_client) ≡ false =
        (is_older_iff _).1
          (λ e. m.recent ((compare_to-Older req.client_version s.min_client).1.0 e)) in
      let given : (is_empty req.repository || is_empty req.commit_id) ≡ false =
        rw (m.repository, m.commit) refl in
      let checked : validate s.env req ≡ passed ss =
        (λ i.
          if m.ssh i
          then refused http_repository
          else if not (m.known_target i)
          then refused invalid_target
          else if given i
          then refused no_commit
          else validate_users s.env.persistence req.users)
        ∙ v in
      (λ i.
        if recent i
        then (406, some version_too_old)
        else if (is_closed_iff s.status).1 m.running i
        then (503, some closed)
        else users_response s req.target (checked i))
      ∙ (server_iff s req.target ss a all).1 (m.enabled, may)

  -- The server answers a request with "OK", without an error, exactly when the request needs no more: the client's version is not older than the server's minimum, submissions are accepted, the repository is not an http address, the target is known and not disabled, and a repository, a commit and users are named; where there is a database that can be read, it has just one record, the right one, for each user, and the users are all staff, or all students while students may submit, and may submit to this target.
  pub validate_request_iff : (validate_request s req ≡ (200, none)) ↔ Admitted s req
  validate_request_iff = (validate_request-Admitted, Admitted-validate_request)
