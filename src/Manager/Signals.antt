-- ===== src/Manager/Signals.antt =====
-- The end of a job, and whom it wakes.
use test.Base.{
  ℕ, suc, ◌+◌, ◌≡◌, ◌≤◌, ◌<◌, refl, subst, inl, inr, false, List, [], ◌∷◌, Option, none, some,
  get_elem?, sum_by, arith, Bool-cases,
}
use mathlib.Core.Option.{some-injective}
use test.Manager.{
  Phase, fresh, waits, woken, runs, over, Manager, set_at, retire, is_waiting, wake, signal,
}
use test.Manager.Counting.{one_waits, one_woken, one_runs, one_over, set_at-Moved}
use test.Manager.Limits.{Limits}

module _ (capacity : ℕ) where
  -- A job is over, but nobody is woken yet.
  pub record Retired (m m1 : Manager) : Type 0 where
    pub running : m1.stats.running ≡ sum_by one_runs m1.jobs
    pub queued : m1.stats.queued ≡ sum_by one_waits m1.jobs + sum_by one_woken m1.jobs
    pub finished : m1.stats.finished ≡ sum_by one_over m1.jobs
    pub one_less : suc m1.stats.running ≡ m.stats.running
    pub waiting : sum_by one_waits m1.jobs ≡ sum_by one_waits m.jobs
    pub woken : sum_by one_woken m1.jobs ≡ sum_by one_woken m.jobs
    pub high : m1.stats.running ≤ m1.stats.high_running
    pub high_queue : m1.stats.queued ≤ m1.stats.high_queued
    pub limit : 0 < capacity → m1.stats.high_running ≤ capacity
    pub average : m1.stats.avg_wait ≤ m1.stats.max_wait

  pub retire-Retired :
      (m : Manager) (n : ℕ)
      → Limits capacity m
      → get_elem? m.jobs n ≡ some runs
      → Retired m (record { stats = retire m.stats; jobs = set_at m.jobs n over })
  unfolding retire
  retire-Retired m n v h =
      let c = set_at-Moved m.jobs n runs over h in
      record {
        running = omega (arith, v.running, c.running);
        queued = omega (arith, v.queued, c.waiting, c.woken);
        finished = omega (arith, v.finished, c.finished);
        one_less = omega (arith, v.running, c.running);
        waiting = omega (arith, c.waiting);
        woken = omega (arith, c.woken);
        high = omega (arith, v.high);
        high_queue = v.high_queue;
        limit = v.limit;
        average = v.average;
      }

  nobody-waits : (jobs : List Phase) → is_waiting jobs ≡ false → sum_by one_waits jobs ≡ 0
  unfolding is_waiting
  nobody-waits [] h = refl
  nobody-waits (fresh ∷ js) h = omega (arith, nobody-waits js h)
  nobody-waits (waits ∷ js) h = cc h
  nobody-waits (woken ∷ js) h = omega (arith, nobody-waits js h)
  nobody-waits (runs ∷ js) h = omega (arith, nobody-waits js h)
  nobody-waits (over ∷ js) h = omega (arith, nobody-waits js h)

  wake-Limits :
      (m m1 m' : Manager) (k : ℕ) (x : Option Phase)
      → Limits capacity m
      → Retired m m1
      → get_elem? m1.jobs k ≡ x
      → wake m1 k x ≡ some m'
      → Limits capacity m'
  unfolding wake
  wake-Limits m m1 m' k (some waits) v r h e =
      let c = set_at-Moved m1.jobs k waits woken h in
      subst (Limits capacity) (some-injective _ _ e) record {
        running = omega (arith, r.running, c.running);
        queued = omega (arith, r.queued, c.waiting, c.woken);
        finished = omega (arith, r.finished, c.finished);
        high = r.high;
        high_queue = r.high_queue;
        limit = r.limit;
        average = r.average;
        full = λ lt. omega (
          arith,
          r.one_less,
          r.waiting,
          r.woken,
          c.waiting,
          c.woken,
          v.full (omega (arith, r.waiting, c.waiting)),
        );
        unlimited = λ z. omega (arith, v.unlimited z, r.waiting, c.waiting);
      }
  wake-Limits m m1 m' k (some fresh) v r h e = cc e
  wake-Limits m m1 m' k (some woken) v r h e = cc e
  wake-Limits m m1 m' k (some runs) v r h e = cc e
  wake-Limits m m1 m' k (some over) v r h e = cc e
  wake-Limits m m1 m' k none v r h e = cc e

  pub signal-Limits :
      (m m1 m' : Manager) (k : Option ℕ)
      → Limits capacity m
      → Retired m m1
      → signal m1 k ≡ some m'
      → Limits capacity m'
  unfolding signal
  signal-Limits m m1 m' (some k) v r e = wake-Limits m m1 m' k (get_elem? m1.jobs k) v r refl e
  signal-Limits m m1 m' none v r e = elim (Bool-cases (is_waiting m1.jobs)) [
    | inl w ↦ cc (rw w at e)
    | inr w ↦
        let z = nobody-waits m1.jobs w in
        subst (Limits capacity) (some-injective _ _ (rw w at e)) record {
          running = r.running;
          queued = r.queued;
          finished = r.finished;
          high = r.high;
          high_queue = r.high_queue;
          limit = r.limit;
          average = r.average;
          full = λ lt. omega (arith, lt, z);
          unlimited = λ _. z;
        }
  ]
