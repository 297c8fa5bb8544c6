-- ===== src/Runner/Steps.antt =====
-- Every step of the dependency runner keeps its invariant.
use test.Base.{
  ◌≤◌, ◌<◌, ◌≡◌, ◌⊎◌, inl, inr, refl, sym, subst, ◌∙◌, ap, true, false, List, [], ◌∷◌, Option, none,
  some, Str, str_eq, eq_of_str_eq, has, Dict, lookup, Bool-cases, arith, ◌&&◌, length, ltb→lt,
  has_key_of_lookup, &&-true, ltb,
}
use test.Runner.{
  TestResult, Waiter, waits, aborting, gone, Group, State, skip, receive, size, spawn, update,
  start, take_message, ready_case, abort_case, result_case, step, Event, message, ready, aborted,
  result, Reach, begin, next, is_final,
}
use test.Runner.Invariant.{Waits, TestAt}
use test.Runner.Preserve.{receive-At}
use test.Runner.Report.{Inv, report-Inv}
use test.Runner.Phases.{
  Then, update_self, update-ne, TestAt-same, is_final-ne_skip, splice, phase, job-phase,
}

module _ (group : Group) (s : State) (v : Inv group s) where
  take-Inv :
      (id : Str) (w : Waiter) (c : Dict TestResult)
      → s.waiter id ≡ w
      → s.chan id ≡ c
      → Then (Inv group) (take_message group s id w c)
  unfolding take_message
  take-Inv id (waits []) c ew ec = tt
  take-Inv id (waits (d ∷ ds)) [] ew ec = tt
  take-Inv id (waits (d ∷ ds)) ((k, r) ∷ rest) ew ec =
      let (deps, l, p) = phase group s v id (waits (d ∷ ds)) ew (λ e. cc) in
      let w : Waits deps s.callbacks ((k, r) ∷ rest) (d ∷ ds) = rw ec at p.0 in
      let t : State = record s {
        waiter = update s.waiter id (receive (d ∷ ds) k r);
        chan = update s.chan id rest;
      } in
      record {
        tests =
            splice group s v t id
              (rw
                (
                  l,
                  update_self s.waiter id (receive (d ∷ ds) k r),
                  update_self s.chan id rest,
                  p.1,
                  p.2,
                  p.3,
                )
                (receive-At k r w))
              (λ i x e h.
                TestAt-same s t i x (update-ne s.waiter id _ i e) refl refl
                  (update-ne s.chan id rest i e) refl h);
        fits = λ i. shorter i (Bool-cases (str_eq id i));
        counted = v.counted;
      }
    where
      shorter :
          (i : Str)
          → (str_eq id i ≡ true) ⊎ (str_eq id i ≡ false)
          → length (update s.chan id rest i) ≤ s.results
      shorter i (inl e) =
          rw (← eq_of_str_eq id i e, update_self s.chan id rest)
            (omega (arith, v.fits id, ap length ec))
      shorter i (inr e) = rw (update-ne s.chan id rest i e) (v.fits i)
  take-Inv id aborting c ew ec = tt
  take-Inv id gone c ew ec = tt

  ready-Inv : (id : Str) (w : Waiter) → s.waiter id ≡ w → Then (Inv group) (ready_case group s id w)
  unfolding ready_case has
  ready-Inv id (waits []) ew =
      let (deps, l, p) = phase group s v id (waits []) ew (λ e. cc) in
      let t : State = record s {
        waiter = update s.waiter id gone;
        waiting = update s.waiting id false;
        jobs = update s.jobs id true;
      } in
      record {
        tests =
            splice group s v t id
              (rw
                (
                  l,
                  update_self s.waiter id gone,
                  update_self s.jobs id true,
                  update_self s.waiting id false,
                  p.3,
                )
                (refl, (refl, λ d m. p.0.cleared d m refl)))
              (λ i x e h.
                TestAt-same s t i x (update-ne s.waiter id _ i e) (update-ne s.jobs id _ i e)
                  (update-ne s.waiting id _ i e) refl refl h);
        fits = v.fits;
        counted = v.counted;
      }
  ready-Inv id (waits (d ∷ ds)) ew = tt
  ready-Inv id aborting ew = tt
  ready-Inv id gone ew = tt

  abort-Inv :
      (id : Str) (w : Waiter)
      → s.waiter id ≡ w
      → s.results < size group
      → Then (Inv group) (abort_case group s id w)
  unfolding abort_case
  abort-Inv id (waits ds) ew lt = tt
  abort-Inv id aborting ew lt =
      let (deps, l, p) = phase group s v id aborting ew (λ e. cc) in
      let t : State = record s {
        waiter = update s.waiter id gone;
        waiting = update s.waiting id false;
      } in
      report-Inv group t id skip deps l v.fits v.counted lt
        (λ j e.
          TestAt-same s t j (lookup j group) (update-ne s.waiter id gone j e) refl
            (update-ne s.waiting id false j e) refl refl (v.tests j))
        (update_self s.waiter id gone) (update_self s.waiting id false) p.1 p.3 (inl (refl, p.0))
  abort-Inv id gone ew lt = tt

  result-Inv :
      (id : Str) (r : TestResult)
      → s.results < size group
      → Then (Inv group) (result_case group s id r)
  unfolding result_case
  result-Inv id r lt = elim (Bool-cases (s.jobs id && is_final r)) [
    | inl e ↦
        let (job, final) = &&-true (s.jobs id) (is_final r) e in
        let (deps, l, p) = job-phase group s v id job in
        let t : State = record s { jobs = update s.jobs id false } in
        rw e (
          report-Inv group t id r deps l v.fits v.counted lt
            (λ j x.
              TestAt-same s t j (lookup j group) refl (update-ne s.jobs id false j x) refl refl refl
                (v.tests j))
            p.0 p.1 (update_self s.jobs id false) p.2 (inr (is_final-ne_skip r final, p.3)))
    | inr e ↦ rw e tt
  ]

  pub step-Inv : (e : Event) → Then (Inv group) (step group s e)
  unfolding step
  step-Inv (message id) = take-Inv id (s.waiter id) (s.chan id) refl refl
  step-Inv (ready id) = elim (Bool-cases (ltb s.results (size group))) [
    | inl e ↦ rw e (ready-Inv id (s.waiter id) refl)
    | inr e ↦ rw e tt
  ]
  step-Inv (aborted id) = elim (Bool-cases (ltb s.results (size group))) [
    | inl e ↦ rw e (abort-Inv id (s.waiter id) refl (ltb→lt _ _ e))
    | inr e ↦ rw e tt
  ]
  step-Inv (result id r) = elim (Bool-cases (ltb s.results (size group))) [
    | inl e ↦ rw e (result-Inv id r (ltb→lt _ _ e))
    | inr e ↦ rw e tt
  ]

start-TestAt :
    (group : Group) (id : Str) (o : Option (List Str))
    → lookup id group ≡ o
    → TestAt (start group) id o
unfolding start lookup
start-TestAt group id none l = rw (l, spawn) (refl, refl)
start-TestAt group id (some deps) l =
    rw (l, spawn)
      (
        record { among = λ d m. m; cleared = λ d m n. cc (sym m ∙ n); in_sync = λ d m. refl },
        refl,
        has_key_of_lookup id group deps l,
        refl,
      )

pub start-Inv : (group : Group) → Inv group (start group)
unfolding start
start-Inv group = record {
  tests = λ id. start-TestAt group id (lookup id group) refl;
  fits = λ id. omega arith;
  counted = refl;
}

pub Reach-Inv : (group : Group) {s : State} → Reach group s → Inv group s
Reach-Inv group begin = start-Inv group
Reach-Inv group (next {s = s} e r h) =
    subst (Then (Inv group)) h (step-Inv group s (Reach-Inv group r) e)
