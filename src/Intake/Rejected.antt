-- ===== src/Intake/Rejected.antt =====
-- A submission that the manager refuses is never unlocked.
use test.Base.{
  ℕ, suc, zero, ◌≡◌, refl, sym, ap, subst, ◌∙◌, inl, inr, Bool, true, false, List, [], ◌∷◌, ◌++◌,
  Option, some, Str, has, get_elem?, ltb, arith, Bool-cases, Option-cases,
}
use mathlib.Core.Option.{some-injective}
use test.Intake.{
  Student, Phase, created, queued, on_deck, running, unlocked, over, rejected, Job, Intake, Event,
  create, enter, lock_run, complete, account, set_status, any_pending, set_phase, run_locked,
  create_job, enter_job, lock_job, launch_job, complete_job, account_job, step, Reach, next,
  refuses, run,
}
use test.Intake.Locks.{by_job, holder, takes_part, sum-element, pending_student}
use test.Intake.Steps.{Reach-Sound}

-- The submission is one that the manager refused.
abbrev pub RefusedAt : Intake → ℕ → List Student → Type 0
RefusedAt s n ss = get_elem? s.jobs n ≡ some (record { students = ss; phase = rejected })

is_rejected : Phase → Bool
is_rejected rejected = true
is_rejected _ = false

-- Changing another phase leaves it.
set_phase-kept :
    (jobs : List Job) (n m : ℕ) (ss : List Student) (j : Job) (q : Phase)
    → get_elem? jobs n ≡ some (record { students = ss; phase = rejected })
    → get_elem? jobs m ≡ some j
    → is_rejected j.phase ≡ false
    → get_elem? (set_phase m q jobs) n ≡ some (record { students = ss; phase = rejected })
unfolding set_phase is_rejected
set_phase-kept [] n m ss j q h k o = cc h
set_phase-kept (x ∷ xs) zero zero ss j q h k o = absurd (
    cc (
      ap (λ (y : Job). is_rejected y.phase) (sym (some-injective _ _ h) ∙ some-injective _ _ k),
      o,
    ))
set_phase-kept (x ∷ xs) zero (suc m) ss j q h k o = h
set_phase-kept (x ∷ xs) (suc n) zero ss j q h k o = h
set_phase-kept (x ∷ xs) (suc n) (suc m) ss j q h k o = set_phase-kept xs n m ss j q h k o

get-append :
    (jobs more : List Job) (n : ℕ) (j : Job)
    → get_elem? jobs n ≡ some j
    → get_elem? (jobs ++ more) n ≡ some j
get-append [] more n j h = cc h
get-append (x ∷ xs) more zero j h = h
get-append (x ∷ xs) more (suc n) j h = get-append xs more n j h

module _ (n : ℕ) (ss : List Student) (s s' : Intake) (r : RefusedAt s n ss) where
  create-kept : (ts : List Student) (stored : Bool) → RefusedAt (create_job ts stored s) n ss
  unfolding create_job
  create-kept ts stored = elim (Bool-cases (any_pending ts s.pending)) [
    | inl h ↦ rw h r
    | inr h ↦
        rw (h, create_job)
          (elim (Bool-cases stored) [ inl b ↦ rw b (get-append s.jobs _ n _ r) | inr b ↦ rw b r ])
  ]

  module _ (m : ℕ) (ts : List Student) where
    -- An event of a submission in another phase.
    other :
        (p q : Phase)
        → get_elem? s.jobs m ≡ some (record { students = ts; phase = p })
        → is_rejected p ≡ false
        → s'.jobs ≡ set_phase m q s.jobs
        → RefusedAt s' n ss
    other p q h o e = rw e (set_phase-kept s.jobs n m ss _ q r h o)

    abbrev Keeps : (Option Job → Option Intake) → Phase → Type 0
    Keeps act p =
        get_elem? s.jobs m ≡ some (record { students = ts; phase = p })
        → act (some (record { students = ts; phase = p })) ≡ some s'
        → RefusedAt s' n ss

    enter-kept : (p : Phase) → Keeps (enter_job m s) p
    unfolding enter_job is_rejected
    enter-kept created h e = elim (Bool-cases (refuses s.status ts)) [
      | inl b ↦
          other created rejected h refl (ap Intake.jobs (sym (some-injective _ _ (rw b at e))))
      | inr b ↦ other created queued h refl (ap Intake.jobs (sym (some-injective _ _ (rw b at e))))
    ]
    enter-kept _ h e = cc e

    lock-kept : (p : Phase) → Keeps (lock_job m s) p
    unfolding lock_job is_rejected
    lock-kept queued h e = elim (Bool-cases (run_locked s.jobs)) [
      | inl b ↦ absurd (cc (rw b at e))
      | inr b ↦ other queued on_deck h refl (ap Intake.jobs (sym (some-injective _ _ (rw b at e))))
    ]
    lock-kept _ h e = cc e

    launch-kept : (tests wait : ℕ) (p : Phase) → Keeps (launch_job m tests wait s) p
    unfolding launch_job is_rejected
    launch-kept tests wait on_deck h e = elim (Bool-cases (ltb 0 tests)) [
      | inl b ↦ absurd (cc (rw b at e))
      | inr b ↦ other on_deck running h refl (ap Intake.jobs (sym (some-injective _ _ (rw b at e))))
    ]
    launch-kept tests wait _ h e = cc e

    complete-kept : (p : Phase) → Keeps (complete_job m s) p
    unfolding complete_job is_rejected
    complete-kept running h e =
        other running unlocked h refl (ap Intake.jobs (sym (some-injective _ _ e)))
    complete-kept _ h e = cc e

    account-kept : (p : Phase) → Keeps (account_job m s) p
    unfolding account_job is_rejected
    account-kept unlocked h e =
        other unlocked over h refl (ap Intake.jobs (sym (some-injective _ _ e)))
    account-kept _ h e = cc e

  step-kept : (e : Event) → step s e ≡ some s' → RefusedAt s' n ss
  unfolding step enter_job lock_job launch_job complete_job account_job
  step-kept (create ts stored) h =
      subst (λ (t : Intake). RefusedAt t n ss) (some-injective _ _ h) (create-kept ts stored)
  step-kept (enter m) h = by_job s s' m (enter_job m s) refl (enter-kept m) _ refl h
  step-kept (lock_run m) h = by_job s s' m (lock_job m s) refl (lock-kept m) _ refl h
  step-kept (Event.launch m tests wait) h =
      by_job s s' m (launch_job m tests wait s) refl (λ ts. launch-kept m ts tests wait) _ refl h
  step-kept (complete m) h = by_job s s' m (complete_job m s) refl (complete-kept m) _ refl h
  step-kept (account m) h = by_job s s' m (account_job m s) refl (account-kept m) _ refl h
  step-kept (set_status st) h = subst (λ (t : Intake). RefusedAt t n ss) (some-injective _ _ h) r

module _ (n : ℕ) (ss : List Student) where
  run-kept :
      (es : List Event) (s t : Intake)
      → Reach s
      → RefusedAt s n ss
      → run s es ≡ some t
      → Reach t × RefusedAt t n ss
  unfolding run
  run-kept [] s t c r h = (
    subst Reach (some-injective _ _ h) c,
    subst (λ (u : Intake). RefusedAt u n ss) (some-injective _ _ h) r,
  )
  run-kept (e ∷ es) s t c r h = elim (Option-cases (step s e)) [
    | inl z ↦ absurd (cc (rw z at h))
    | inr (u, z) ↦ run-kept es u t (next e c z) (step-kept n ss s u r e z) (rw z at h)
  ]

  -- Once the manager has refused a submission, its students stay locked for good: whatever happens
  -- afterwards, each request that one of them takes part in leaves everything as it is.
  pub rejected_for_good :
      (s t : Intake) (es : List Event)
      → Reach s
      → RefusedAt s n ss
      → run s es ≡ some t
      → (e : Str) (ts : List Student) (stored : Bool) → takes_part e ss ≡ true
      → takes_part e ts ≡ true
      → create_job ts stored t ≡ t
  unfolding create_job
  rejected_for_good s t es c r h e ts stored p q =
      let (c', r') = run-kept es s t c r h in
      let locked : has e t.pending ≡ true =
        ground (arith, (Reach-Sound t c').locked e, sum-element (holder e) t.jobs n _ r') in
      rw (pending_student e ts t.pending q locked) refl
