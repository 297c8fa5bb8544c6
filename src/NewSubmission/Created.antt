-- ===== src/NewSubmission/Created.antt =====
-- What a created submission is, and that its creation does not panic.
use test.Base.{
  ℕ, ◌≡◌, ◌⊎◌, refl, sym, subst, inl, inr, Bool, true, false, not, ◌||◌, List, [], ◌∷◌, Option,
  none, some, Str, codes, Dict, lookup, has_key, has_prefix, is_empty, lookup_of_has_key,
  Bool-cases, if◌then◌else◌, arith, All,
}
use test.Targets.{Target}
use test.Admission.{
  SubmissionUserInfo, SubmissionRequest, Student, PersistenceManager, TestEnvironment, Refusal,
  refused, passed, validate, http_repository, invalid_target, no_commit, validate_users,
}
use test.Admission
use test.Admission.Users.{Role}
use test.Admission.Groups.{Kind, refuse_guard, validate_users-Through}
use test.TargetGroup.{Assembled, assembled, InstanceError}
use test.TargetGroup
use test.NewSubmission.{
  BuildConf, build_conf, not_valid, no_build, no_instance, no_target, NewSubmission, Creation,
  created, failed, emails, or_zero, meta_of, details, with_instance, with_build, with_target,
  with_students, new_submission,
}

-- Whether a submission is marked as one of staff, and for whom.
abbrev pub Marked : Option PersistenceManager → List SubmissionUserInfo → Bool → Type 0
Marked none us b = b ≡ false
Marked (some p) us b =
    ((p.can_retrieve ≡ false) × (b ≡ false))
    ⊎ ((b ≡ true) × All (Role p true) us)
    ⊎ ((b ≡ false) × All (Role p false) us)

Kind-Marked :
    (p : Option PersistenceManager) (us : List SubmissionUserInfo) (ss : List Student)
    → Kind p us ss
    → Marked p us (Admission.first_is_staff p ss)
Kind-Marked none us ss k = k
Kind-Marked (some p) us ss k = k

valid_parts :
    (env : TestEnvironment) (req : SubmissionRequest) (ss : List Student)
    → validate env req ≡ passed ss
    → ((t : Target) × (lookup req.target env.targets ≡ some t)) × Kind env.persistence req.users ss
unfolding validate
valid_parts env req ss v =
    let (x, v1) = refuse_guard (has_prefix req.repository (codes "http")) http_repository _ ss v in
    let (t, v2) = refuse_guard (not (has_key req.target env.targets)) invalid_target _ ss v1 in
    let (r, v3) =
      refuse_guard (is_empty req.repository || is_empty req.commit_id) no_commit _ ss v2 in
    let (u, (a, all, g, kind)) = validate_users-Through env.persistence req.users ss false v3 in
    (lookup_of_has_key req.target env.targets (ground arith), kind)

module _ (estimated : Dict ℕ) (build : BuildConf → Option Str)
    (instance_of : Target → Assembled InstanceError TargetGroup.Result) (env : TestEnvironment)
    (req : SubmissionRequest) (id : Str) where
  -- The submission counts for the target, or for the metatarget that it points to.
  abbrev pub Counts : Target → NewSubmission → Type 0
  Counts t n =
      ((n.submission.target_name ≡ t.name)
        × (n.submission.points_available ≡ t.points)
        × (n.submission.is_meta ≡ t.is_meta)
        × ((meta_of env.targets t.meta_target ≡ none) ⊎ (t.is_meta ≡ true)))
      ⊎ ((m : Target) × (meta_of env.targets t.meta_target ≡ some m)
          × (t.is_meta ≡ false)
          × (n.submission.target_name ≡ m.name)
          × (n.submission.points_available ≡ m.points)
          × (n.submission.is_meta ≡ true))

  -- A submission that is created.
  pub record IsNew (n : NewSubmission) (ss : List Student) : Type 0 where
    pub valid : validate env req ≡ passed ss
    pub target : Target
    pub known : lookup req.target env.targets ≡ some target
    pub build_id : Str
    pub built : build (build_conf env req target) ≡ some build_id
    pub instance_made : instance_of target ≡ assembled n.group
    pub tests : n.submission.test_ids ≡ build_id ∷ []
    pub counts : Counts target n
    pub estimate :
        n.submission.estimated_score ≡ or_zero (lookup n.submission.target_name estimated)
    pub staff : Marked env.persistence req.users n.is_staff

  -- What the creation of a submission comes to.
  abbrev pub Made : Creation → Type 0
  Made (created n ss) = IsNew n ss
  Made (failed (not_valid e)) = validate env req ≡ refused e
  Made (failed no_target) = ⊥
  Made (failed no_build) =
      (t : Target) × (lookup req.target env.targets ≡ some t)
      × (build (build_conf env req t) ≡ none)
  Made (failed no_instance) =
      (t : Target) × (lookup req.target env.targets ≡ some t)
      × ((e : InstanceError) × (instance_of t ≡ TargetGroup.refused e))

  module _ (ss : List Student) (v : validate env req ≡ passed ss) (t : Target)
      (l : lookup req.target env.targets ≡ some t) where
    module _ (b : Str) (hb : build (build_conf env req t) ≡ some b) where
      details-Counts :
          (g : TargetGroup.Result) (m : Option Target)
          → meta_of env.targets t.meta_target ≡ m
          → Counts t (record {
            submission = details estimated build instance_of env req id t b;
            group = g;
            submitted_target = t.name;
            users = emails req.users;
            is_staff = Admission.first_is_staff env.persistence ss;
          })
      unfolding details
      details-Counts g none e = rw e (inl (refl, refl, ground arith, inl refl))
      details-Counts g (some m) e = rw e (elim (Bool-cases t.is_meta) [
        | inl f ↦ inl (
          (λ i. (if not (f i) then m else t).name),
          (λ i. (if not (f i) then m else t).points),
          ground arith,
          inr f,
        )
        | inr f ↦ inr (
          m,
          refl,
          f,
          (λ i. (if not (f i) then m else t).name),
          (λ i. (if not (f i) then m else t).points),
          ground arith,
        )
      ])

      instance-Made :
          (r : Assembled InstanceError TargetGroup.Result)
          → instance_of t ≡ r
          → Made (with_instance estimated build instance_of env req id ss t b r)
      unfolding details
      instance-Made (assembled g) h = record {
        valid = v;
        target = t;
        known = l;
        build_id = b;
        built = hb;
        instance_made = h;
        tests = refl;
        counts = details-Counts g _ refl;
        estimate = refl;
        staff = Kind-Marked env.persistence req.users ss (valid_parts env req ss v).1;
      }
      instance-Made (TargetGroup.refused e) h = (t, l, (e, h))

    build-Made :
        (r : Option Str)
        → build (build_conf env req t) ≡ r
        → Made (with_build estimated build instance_of env req id ss t r)
    build-Made none h = (t, l, h)
    build-Made (some b) h = instance-Made b h _ refl

  validated-Made :
      (r : Admission.Result (List Student))
      → validate env req ≡ r
      → Made (with_students estimated build instance_of env req id r)
  validated-Made (refused e) v = v
  validated-Made (passed ss) v =
      let (t, l) = (valid_parts env req ss v).0 in
      subst (λ r. Made (with_target estimated build instance_of env req id ss r)) (sym l)
        (build-Made ss v t l _ refl)

  -- Creating a submission never looks up a target that is not there. It fails with the refusal of the request, or where the build test or the instance of the target cannot be made. A created submission comes from a valid request for a known target, with the id of the build test as its only test and the group of the target's instance. It counts for its target, or, for a subtarget, for the metatarget with its name and points; its estimated score is the one given for the target it counts for. It is marked as of staff only if the database says that all of its users are staff, and where the database can be read and it is not marked, all of them are students.
  pub new_submission-Made : Made (new_submission estimated build instance_of env req id)
  unfolding new_submission
  new_submission-Made = validated-Made _ refl
