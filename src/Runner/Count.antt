-- ===== src/Runner/Count.antt =====
-- The tests that have not reported yet, counted over the group.
use test.Base.{
  ℕ, ◌+◌, ◌<◌, ◌≡◌, refl, subst, ap, true, false, List, [], ◌∷◌, Option, none, some, Str, str_eq,
  str_eq_iff, eq_of_str_eq, inl, inr, Dict, lookup, Bool-cases, lookup-snoc_ne, lookup-snoc_self,
  arith, length, ltb→lt, has_key, &&-true, ltb, ◌&&◌, has_key_of_lookup,
}
use test.Runner.{
  TestResult, Waiter, waits, aborting, gone, Group, State, skip, size, update, report, start,
  take_message, ready_case, abort_case, result_case, step, Event, message, ready, aborted, result,
  Reach, begin, next, is_final,
}
use test.Runner.Preserve.{more}
use test.Runner.Report.{Inv, try_send-room}
use test.Runner.Phases.{Then, phase, job-phase}
use test.Runner.Steps.{Reach-Inv}

-- The ids of a group are the keys of a Go map: no two are equal.
abbrev pub Unique : Group → Type 0
Unique [] = Unit
Unique ((id, deps) ∷ g) = (has_key id g ≡ false) × Unique g

abbrev pub open_case : Option TestResult → ℕ
open_case none = 1
open_case (some r) = 0

unfoldable pub missing : Dict TestResult → Group → ℕ
missing c [] = 0
missing c ((id, deps) ∷ g) = open_case (lookup id c) + missing c g

module _ (k : Str) (r : TestResult) (c : Dict TestResult) where
  missing-other : (g : Group) → has_key k g ≡ false → missing (more k r c) g ≡ missing c g
  unfolding missing has_key
  missing-other [] h = refl
  missing-other ((id, deps) ∷ g) h = elim (Bool-cases (str_eq id k)) [
    | inl e ↦ cc (rw e at h)
    | inr e ↦
        rw (lookup-snoc_ne k r id c (ground (arith, str_eq_iff id k, str_eq_iff k id)))
          (ap (λ (n : ℕ). open_case (lookup id c) + n) (missing-other g (rw e at h)))
  ]

  pub missing-more :
      (g : Group)
      → Unique g
      → has_key k g ≡ true
      → lookup k c ≡ none
      → missing (more k r c) g + 1 ≡ missing c g
  unfolding missing has_key
  missing-more [] u h n = cc
  missing-more ((id, deps) ∷ g) u h n = elim (Bool-cases (str_eq id k)) [
    | inl e ↦
        let p : id ≡ k = eq_of_str_eq id k e in
        rw (p, lookup-snoc_self k r c n, n, missing-other g (rw p at u.0)) (omega arith)
    | inr e ↦
        rw (lookup-snoc_ne k r id c (ground (arith, str_eq_iff id k, str_eq_iff k id)))
          (omega (arith, missing-more g u.1 (rw e at h) n))
  ]

missing-start : (g : Group) → missing [] g ≡ length g
unfolding missing lookup
missing-start [] = refl
missing-start ((id, deps) ∷ g) = omega (arith, missing-start g)

abbrev pub Tally : Group → State → Type 0
Tally group s = missing s.callbacks group + s.results ≡ size group

module _ (group : Group) (u : Unique group) (s : State) (v : Inv group s)
    (tally : Tally group s) where
  report-Tally :
      (t : State) (id : Str) (r : TestResult) (deps : List Str)
      → lookup id group ≡ some deps
      → s.results < size group
      → lookup id s.callbacks ≡ none
      → t.callbacks ≡ s.callbacks
      → t.results ≡ s.results
      → Tally group (report group t id r)
  unfolding report
  report-Tally t id r deps l lt o c n =
      rw (c, n, try_send-room (size group) id r s.callbacks (omega (arith, v.counted)))
        (omega (
          arith,
          tally,
          missing-more id r s.callbacks group u (has_key_of_lookup id group deps l) o,
        ))

  take-Tally :
      (id : Str) (w : Waiter) (c : Dict TestResult)
      → Then (Tally group) (take_message group s id w c)
  unfolding take_message
  take-Tally id (waits []) c = tt
  take-Tally id (waits (d ∷ ds)) [] = tt
  take-Tally id (waits (d ∷ ds)) ((k, r) ∷ rest) = tally
  take-Tally id aborting c = tt
  take-Tally id gone c = tt

  ready-Tally : (id : Str) (w : Waiter) → Then (Tally group) (ready_case group s id w)
  unfolding ready_case
  ready-Tally id (waits []) = tally
  ready-Tally id (waits (d ∷ ds)) = tt
  ready-Tally id aborting = tt
  ready-Tally id gone = tt

  abort-Tally :
      (id : Str) (w : Waiter)
      → s.waiter id ≡ w
      → s.results < size group
      → Then (Tally group) (abort_case group s id w)
  unfolding abort_case
  abort-Tally id (waits ds) e lt = tt
  abort-Tally id aborting e lt =
      let (deps, l, p) = phase group s v id aborting e (λ e. cc) in
      report-Tally
        (record s { waiter = update s.waiter id gone; waiting = update s.waiting id false }) id skip
        deps l lt p.3 refl refl
  abort-Tally id gone e lt = tt

  result-Tally :
      (id : Str) (r : TestResult)
      → s.results < size group
      → Then (Tally group) (result_case group s id r)
  unfolding result_case
  result-Tally id r lt = elim (Bool-cases (s.jobs id && is_final r)) [
    | inl e ↦
        let (job, final) = &&-true (s.jobs id) (is_final r) e in
        let (deps, l, p) = job-phase group s v id job in
        rw e
          (report-Tally (record s { jobs = update s.jobs id false }) id r deps l lt p.2 refl refl)
    | inr e ↦ rw e tt
  ]

  step-Tally : (e : Event) → Then (Tally group) (step group s e)
  unfolding step
  step-Tally (message id) = take-Tally id (s.waiter id) (s.chan id)
  step-Tally (ready id) = elim (Bool-cases (ltb s.results (size group))) [
    | inl e ↦ rw e (ready-Tally id (s.waiter id))
    | inr e ↦ rw e tt
  ]
  step-Tally (aborted id) = elim (Bool-cases (ltb s.results (size group))) [
    | inl e ↦ rw e (abort-Tally id (s.waiter id) refl (ltb→lt _ _ e))
    | inr e ↦ rw e tt
  ]
  step-Tally (result id r) = elim (Bool-cases (ltb s.results (size group))) [
    | inl e ↦ rw e (result-Tally id r (ltb→lt _ _ e))
    | inr e ↦ rw e tt
  ]

pub Reach-Tally : (group : Group) → Unique group → {s : State} → Reach group s → Tally group s
unfolding start
Reach-Tally group u begin = omega (arith, missing-start group)
Reach-Tally group u (next {s = s} e r h) =
    subst (Then (Tally group)) h
      (step-Tally group u s (Reach-Inv group r) (Reach-Tally group u r) e)
