-- ===== src/Manager/Limits.antt =====
-- The limits that the manager keeps, and what its counters count.
use test.Base.{
  ℕ, ◌+◌, ◌*◌, ◌/◌, ◌≡◌, ◌≤◌, ◌<◌, subst, inl, inr, true, false, some, get_elem?, sum_by, arith,
  Bool-cases,
}
use mathlib.Core.Option.{some-injective}
use test.Manager.{
  fresh, waits, woken, runs, Manager, ManagerStats, enqueue, dequeue, launch, at_capacity,
  arrive_job, recheck_job,
}
use test.Manager.Counting.{one_waits, one_woken, one_runs, one_over, set_at-Moved}

-- What holds whenever the lock is free.
pub record Limits (capacity : ℕ) (m : Manager) : Type 0 where
  pub running : m.stats.running ≡ sum_by one_runs m.jobs
  pub queued : m.stats.queued ≡ sum_by one_waits m.jobs + sum_by one_woken m.jobs
  pub finished : m.stats.finished ≡ sum_by one_over m.jobs
  pub high : m.stats.running ≤ m.stats.high_running
  pub high_queue : m.stats.queued ≤ m.stats.high_queued
  pub limit : 0 < capacity → m.stats.high_running ≤ capacity
  pub average : m.stats.avg_wait ≤ m.stats.max_wait
  pub full : 0 < sum_by one_waits m.jobs → capacity ≤ m.stats.running + sum_by one_woken m.jobs
  pub unlimited : capacity ≡ 0 → sum_by one_waits m.jobs ≡ 0

average_le : (t a c k : ℕ) → a ≤ k → c ≤ k → (t * a + c) / (t + 1) ≤ k
average_le t a c k h g = grind arith

module _ (capacity : ℕ) where
  at-full :
      (s : ManagerStats) → at_capacity capacity s ≡ true → (0 < capacity) × (capacity ≤ s.running)
  unfolding at_capacity
  at-full s h = (ground arith, ground arith)

  at-free :
      (s : ManagerStats) → at_capacity capacity s ≡ false → 0 < capacity → s.running < capacity
  unfolding at_capacity
  at-free s h lt = ground arith

  pub arrive-Limits :
      (m : Manager) (n : ℕ) (m' : Manager)
      → Limits capacity m
      → get_elem? m.jobs n ≡ some fresh
      → arrive_job capacity m n (some fresh) ≡ some m'
      → Limits capacity m'
  unfolding arrive_job enqueue launch
  arrive-Limits m n m' v h e = elim (Bool-cases (at_capacity capacity m.stats)) [
    | inl a ↦
        let c = set_at-Moved m.jobs n fresh waits h in
        subst (Limits capacity) (some-injective _ _ (rw a at e)) record {
          running = omega (arith, v.running, c.running);
          queued = omega (arith, v.queued, c.waiting, c.woken);
          finished = omega (arith, v.finished, c.finished);
          high = v.high;
          high_queue = ground (arith, v.high_queue);
          limit = v.limit;
          average = v.average;
          full = (λ _. omega (arith, at-full m.stats a, c.woken));
          unlimited = (λ z. omega (arith, z, at-full m.stats a));
        }
    | inr a ↦
        let c = set_at-Moved m.jobs n fresh runs h in
        subst (Limits capacity) (some-injective _ _ (rw a at e)) record {
          running = omega (arith, v.running, c.running);
          queued = omega (arith, v.queued, c.waiting, c.woken);
          finished = omega (arith, v.finished, c.finished);
          high = ground (arith, v.high);
          high_queue = v.high_queue;
          limit = (λ lt. ground (arith, v.limit lt, at-free m.stats a lt));
          average = v.average;
          full = (λ lt. omega (arith, v.full (omega (arith, lt, c.waiting)), c.woken));
          unlimited = (λ z. omega (arith, v.unlimited z, c.waiting));
        }
  ]

  pub recheck-Limits :
      (m : Manager) (n wait : ℕ) (m' : Manager)
      → Limits capacity m
      → get_elem? m.jobs n ≡ some woken
      → recheck_job capacity m n wait (some woken) ≡ some m'
      → Limits capacity m'
  unfolding recheck_job dequeue launch
  recheck-Limits m n wait m' v h e = elim (Bool-cases (at_capacity capacity m.stats)) [
    | inl a ↦
        let c = set_at-Moved m.jobs n woken waits h in
        subst (Limits capacity) (some-injective _ _ (rw a at e)) record {
          running = omega (arith, v.running, c.running);
          queued = omega (arith, v.queued, c.waiting, c.woken);
          finished = omega (arith, v.finished, c.finished);
          high = v.high;
          high_queue = v.high_queue;
          limit = v.limit;
          average = v.average;
          full = λ _. omega (arith, at-full m.stats a);
          unlimited = λ z. omega (arith, z, at-full m.stats a);
        }
    | inr a ↦
        let c = set_at-Moved m.jobs n woken runs h in
        subst (Limits capacity) (some-injective _ _ (rw a at e)) record {
          running = omega (arith, v.running, c.running);
          queued = omega (arith, v.queued, c.waiting, c.woken);
          finished = omega (arith, v.finished, c.finished);
          high = ground (arith, v.high);
          high_queue = omega (arith, v.high_queue);
          limit = λ lt. ground (arith, v.limit lt, at-free m.stats a lt);
          average =
              average_le m.stats.waited m.stats.avg_wait wait _ (ground (arith, v.average))
                (ground arith);
          full = λ lt. omega (arith, v.full (omega (arith, lt, c.waiting)), c.woken);
          unlimited = λ z. omega (arith, v.unlimited z, c.waiting);
        }
  ]
