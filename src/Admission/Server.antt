-- ===== src/Admission/Server.antt =====
-- When the server's settings let a group of users submit to a target.
use test.Base.{
  ◌≡◌, ◌↔◌, refl, sym, subst, ◌∙◌, Bool, true, false, not, ◌&&◌, ◌||◌, List, none, some, Str, has,
  if◌then◌else◌,
}
use test.Intake.{ManagerStatus, accepting, not_accepting, staff_only}
use test.Admission.{
  Student, SubmissionServer, all_staff, check_staff_only_submission, check_target_blacklists,
  blacklist_response, answered, staff_only_now, refuse_students, target_disabled, target_staff_only,
}

abbrev is_staff_only : ManagerStatus → Bool
is_staff_only staff_only = true
is_staff_only accepting = false
is_staff_only not_accepting = false

-- Only staff may submit to this target now.
abbrev pub restricted : SubmissionServer → Str → Bool
restricted s name = is_staff_only s.status || has name s.staff_only_targets

final_iff :
    (g d a r : Bool)
    → ((if g && not a
          then (503, some staff_only_now)
          else answered (
              if d
              then some target_disabled
              else if not a && r
              then some target_staff_only
              else none))
        ≡ (200, none))
      ↔ ((d ≡ false) × ((a || not (g || r)) ≡ true))
final_iff true d false r = (λ h. absurd (cc h), λ h. absurd (cc (h.1)))
final_iff true true true r = (λ h. absurd (cc h), λ h. absurd (cc (h.0)))
final_iff true false true r = (λ h. (refl, refl), λ h. refl)
final_iff false true a r = (λ h. absurd (cc h), λ h. absurd (cc (h.0)))
final_iff false false true r = (λ h. (refl, refl), λ h. refl)
final_iff false false false true = (λ h. absurd (cc h), λ h. absurd (cc (h.1)))
final_iff false false false false = (λ h. (refl, refl), λ h. refl)

refuse_if :
    (x : ManagerStatus) (a : Bool) (ss : List Student)
    → refuse_students x (a, ss) ss
      ≡ (if is_staff_only x && not a then some staff_only_now else none, ss)
refuse_if staff_only true ss = refl
refuse_if staff_only false ss = refl
refuse_if accepting a ss = refl
refuse_if not_accepting a ss = refl

module _ (s : SubmissionServer) (name : Str) where
  guarded :
      (b : Bool) (ss : List Student)
      → blacklist_response s name (if b then some staff_only_now else none, ss)
        ≡ (if b then (503, some staff_only_now) else answered (check_target_blacklists s ss name))
  guarded true ss = refl
  guarded false ss = refl

  pub server_iff :
      (ss : List Student) (a : Bool)
      → all_staff s.env.persistence ss ≡ (a, ss)
      → (blacklist_response s name (check_staff_only_submission s ss) ≡ (200, none))
        ↔ ((has name s.disabled_targets ≡ false) × ((a || not (restricted s name)) ≡ true))
  unfolding check_staff_only_submission check_target_blacklists
  server_iff ss a h =
      let student = is_staff_only s.status && not a in
      let checked : blacklist_response s name (check_staff_only_submission s ss) ≡ (
          if student
          then (503, some staff_only_now)
          else answered (
              if has name s.disabled_targets
              then some target_disabled
              else if not a && has name s.staff_only_targets
              then some target_staff_only
              else none)) =
        (λ i. blacklist_response s name (refuse_students s.status (h i) ss))
        ∙ (λ i. blacklist_response s name (refuse_if s.status a ss i))
        ∙ guarded student ss
        ∙ (λ i.
            if student
            then (503, some staff_only_now)
            else answered (
                if has name s.disabled_targets
                then some target_disabled
                else if not ((h i).0) && has name s.staff_only_targets
                then some target_staff_only
                else none)) in
      subst
        (λ r.
          (r ≡ (200, none))
          ↔ ((has name s.disabled_targets ≡ false) × ((a || not (restricted s name)) ≡ true)))
        (sym checked)
        (final_iff (is_staff_only s.status) (has name s.disabled_targets) a
          (has name s.staff_only_targets))
