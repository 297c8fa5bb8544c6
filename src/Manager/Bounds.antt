-- ===== src/Manager/Bounds.antt =====
-- The manager's limits hold in every state that it reaches.
use test.Base.{ℕ, ◌≡◌, refl, sym, Option, none, some, get_elem?, arith}
use test.Manager.{
  Phase, fresh, waits, woken, runs, over, Manager, Event, arrive, recheck, finish, arrive_job,
  recheck_job, finish_job, step, start, Reach, begin, next,
}
use test.Manager.Counting.{one_waits, one_woken, one_runs, one_over, all_fresh-sum}
use test.Manager.Limits.{Limits, arrive-Limits, recheck-Limits}
use test.Manager.Signals.{retire-Retired, signal-Limits}

module _ (capacity : ℕ) where
  arrive-step :
      (m m' : Manager) (n : ℕ) (x : Option Phase)
      → Limits capacity m
      → get_elem? m.jobs n ≡ x
      → arrive_job capacity m n x ≡ some m'
      → Limits capacity m'
  unfolding arrive_job
  arrive-step m m' n (some fresh) v h e = arrive-Limits capacity m n m' v h e
  arrive-step m m' n (some waits) v h e = cc e
  arrive-step m m' n (some woken) v h e = cc e
  arrive-step m m' n (some runs) v h e = cc e
  arrive-step m m' n (some over) v h e = cc e
  arrive-step m m' n none v h e = cc e

  recheck-step :
      (m m' : Manager) (n wait : ℕ) (x : Option Phase)
      → Limits capacity m
      → get_elem? m.jobs n ≡ x
      → recheck_job capacity m n wait x ≡ some m'
      → Limits capacity m'
  unfolding recheck_job
  recheck-step m m' n wait (some woken) v h e = recheck-Limits capacity m n wait m' v h e
  recheck-step m m' n wait (some waits) v h e = cc e
  recheck-step m m' n wait (some fresh) v h e = cc e
  recheck-step m m' n wait (some runs) v h e = cc e
  recheck-step m m' n wait (some over) v h e = cc e
  recheck-step m m' n wait none v h e = cc e

  finish-step :
      (m m' : Manager) (n : ℕ) (k : Option ℕ) (x : Option Phase)
      → Limits capacity m
      → get_elem? m.jobs n ≡ x
      → finish_job capacity m n k x ≡ some m'
      → Limits capacity m'
  unfolding finish_job
  finish-step m m' n k (some runs) v h e =
      signal-Limits capacity m _ m' k v (retire-Retired capacity m n v h) e
  finish-step m m' n k (some waits) v h e = cc e
  finish-step m m' n k (some fresh) v h e = cc e
  finish-step m m' n k (some woken) v h e = cc e
  finish-step m m' n k (some over) v h e = cc e
  finish-step m m' n k none v h e = cc e

  step-Limits :
      (m m' : Manager) (e : Event)
      → Limits capacity m
      → step capacity m e ≡ some m'
      → Limits capacity m'
  unfolding step
  step-Limits m m' (arrive n) v h = arrive-step m m' n (get_elem? m.jobs n) v refl h
  step-Limits m m' (recheck n wait) v h = recheck-step m m' n wait (get_elem? m.jobs n) v refl h
  step-Limits m m' (finish n k) v h = finish-step m m' n k (get_elem? m.jobs n) v refl h

  start-Limits : (n : ℕ) → Limits capacity (start n)
  unfolding start
  start-Limits n =
      let w = all_fresh-sum one_waits n refl in
      record {
        running = sym (all_fresh-sum one_runs n refl);
        queued = omega (arith, w, all_fresh-sum one_woken n refl);
        finished = sym (all_fresh-sum one_over n refl);
        high = omega arith;
        high_queue = omega arith;
        limit = λ lt. omega arith;
        average = omega arith;
        full = λ lt. omega (arith, lt, w);
        unlimited = λ _. w;
      }

  -- In every state that the manager reaches: it counts the jobs that run, that are queued and that are
  -- over; with a capacity, neither the tests that run now nor the most that ever ran exceed it; the
  -- average wait is at most the longest one; and with a capacity a job waits only if the tests that run
  -- and the jobs that were woken fill the capacity, so that no wake-up is lost.
  pub Reach-Limits : (n : ℕ) (m : Manager) → Reach capacity n m → Limits capacity m
  Reach-Limits n m begin = start-Limits n
  Reach-Limits n m (next {m = m0} e r h) = step-Limits m0 m e (Reach-Limits n m0 r) h
