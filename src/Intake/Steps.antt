-- ===== src/Intake/Steps.antt =====
-- Every step keeps the locks and the counters right.
use test.Base.{ℕ, ◌≡◌, refl, subst, inl, inr, List, some, has, get_elem?, ltb, arith, Bool-cases}
use mathlib.Core.Option.{some-injective}
use test.Intake.{
  Student, Phase, created, queued, on_deck, running, unlocked, Intake, Event, create, enter,
  lock_run, complete, account, set_status, run_locked, enter_job, lock_job, launch_job,
  complete_job, account_job, step, start, Reach, begin, next, refuses,
}
use test.Intake.Locks.{by_job}
use test.Intake.Sound.{
  Sound, create-Sound, rejected-Sound, queued-Sound, deck-Sound, launched-Sound, completed-Sound,
  accounted-Sound,
}

module _ (s s' : Intake) (i : Sound s) (n : ℕ) where
  entered :
      (ss : List Student) (p : Phase)
      → get_elem? s.jobs n ≡ some (record { students = ss; phase = p })
      → enter_job n s (some (record { students = ss; phase = p })) ≡ some s'
      → Sound s'
  unfolding enter_job
  entered ss created h e = elim (Bool-cases (refuses s.status ss)) [
    | inl r ↦ subst Sound (some-injective _ _ (rw r at e)) (rejected-Sound s i n ss h)
    | inr r ↦ subst Sound (some-injective _ _ (rw r at e)) (queued-Sound s i n ss h)
  ]
  entered ss _ h e = cc e

  decked :
      (ss : List Student) (p : Phase)
      → get_elem? s.jobs n ≡ some (record { students = ss; phase = p })
      → lock_job n s (some (record { students = ss; phase = p })) ≡ some s'
      → Sound s'
  unfolding lock_job
  decked ss queued h e = elim (Bool-cases (run_locked s.jobs)) [
    | inl r ↦ absurd (cc (rw r at e))
    | inr r ↦ subst Sound (some-injective _ _ (rw r at e)) (deck-Sound s i n ss r h)
  ]
  decked ss _ h e = cc e

  launched :
      (tests wait : ℕ) (ss : List Student) (p : Phase)
      → get_elem? s.jobs n ≡ some (record { students = ss; phase = p })
      → launch_job n tests wait s (some (record { students = ss; phase = p })) ≡ some s'
      → Sound s'
  unfolding launch_job
  launched tests wait ss on_deck h e = elim (Bool-cases (ltb 0 tests)) [
    | inl r ↦ absurd (cc (rw r at e))
    | inr r ↦ subst Sound (some-injective _ _ (rw r at e)) (launched-Sound s i n ss wait h)
  ]
  launched tests wait ss _ h e = cc e

  completed :
      (ss : List Student) (p : Phase)
      → get_elem? s.jobs n ≡ some (record { students = ss; phase = p })
      → complete_job n s (some (record { students = ss; phase = p })) ≡ some s'
      → Sound s'
  unfolding complete_job
  completed ss running h e = subst Sound (some-injective _ _ e) (completed-Sound s i n ss h)
  completed ss _ h e = cc e

  accounted :
      (ss : List Student) (p : Phase)
      → get_elem? s.jobs n ≡ some (record { students = ss; phase = p })
      → account_job n s (some (record { students = ss; phase = p })) ≡ some s'
      → Sound s'
  unfolding account_job
  accounted ss unlocked h e = subst Sound (some-injective _ _ e) (accounted-Sound s i n ss h)
  accounted ss _ h e = cc e

step-Sound : (s s' : Intake) (e : Event) → Sound s → step s e ≡ some s' → Sound s'
unfolding step enter_job lock_job launch_job complete_job account_job
step-Sound s s' (create ss stored) i h =
    subst Sound (some-injective _ _ h) (create-Sound s i ss stored)
step-Sound s s' (enter n) i h = by_job s s' n (enter_job n s) refl (entered s s' i n) _ refl h
step-Sound s s' (lock_run n) i h = by_job s s' n (lock_job n s) refl (decked s s' i n) _ refl h
step-Sound s s' (Event.launch n tests wait) i h =
    by_job s s' n (launch_job n tests wait s) refl (launched s s' i n tests wait) _ refl h
step-Sound s s' (complete n) i h =
    by_job s s' n (complete_job n s) refl (completed s s' i n) _ refl h
step-Sound s s' (account n) i h = by_job s s' n (account_job n s) refl (accounted s s' i n) _ refl h
step-Sound s s' (set_status st) i h = subst Sound (some-injective _ _ h) record {
  locked = i.locked;
  queue_count = i.queue_count;
  run_count = i.run_count;
  over_count = i.over_count;
  one_on_deck = i.one_on_deck;
}

start-Sound : Sound start
unfolding start has
start-Sound = record {
  locked = λ e. refl;
  queue_count = refl;
  run_count = refl;
  over_count = refl;
  one_on_deck = omega arith;
}

-- In every state that is reached: a student's email is in the map of pending submissions exactly if
-- some submission of the student was created and has not come to the end of its run, one that the
-- manager refused included, and there is never a second such submission; the submission manager counts
-- the submissions that are queued, that run and that are finished; and at most one holds the run lock.
pub Reach-Sound : (s : Intake) → Reach s → Sound s
Reach-Sound s begin = start-Sound
Reach-Sound s (next {s = t} e r h) = step-Sound t s e (Reach-Sound t r) h
