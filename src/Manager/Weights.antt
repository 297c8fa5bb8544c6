-- ===== src/Manager/Weights.antt =====
-- Each event of the manager takes a job closer to its end.
use test.Base.{
  ℕ, zero, suc, ◌+◌, ◌≡◌, ◌<◌, refl, ap, ◌∙◌, subst, inl, inr, Bool, true, false, List, [], ◌∷◌,
  Option, none, some, get_elem?, length, sum_by, arith, if◌then◌else◌, Bool-cases,
}
use mathlib.Core.Option.{some-injective}
use test.Manager.{
  Phase, fresh, waits, woken, runs, over, Manager, Event, arrive, recheck, finish, set_at,
  is_waiting, wake, signal, at_capacity, arrive_job, recheck_job, finish_job, step,
}
use test.Manager.Counting.{set_at-sum}

abbrev pub weight : Phase → ℕ
weight fresh = 3
weight waits = 2
weight woken = 3
weight runs = 2
weight over = 0

set_at-length : (jobs : List Phase) (n : ℕ) (y : Phase) → length (set_at jobs n y) ≡ length jobs
unfolding set_at
set_at-length [] n y = refl
set_at-length (z ∷ zs) zero y = refl
set_at-length (z ∷ zs) (suc n) y = ap suc (set_at-length zs n y)

-- As many jobs, with less ahead of them.
pub record Lower (jobs jobs' : List Phase) : Type 0 where
  pub same : length jobs' ≡ length jobs
  pub less : sum_by weight jobs' < sum_by weight jobs

set_at-Lower :
    (jobs : List Phase) (n : ℕ) (x y : Phase)
    → get_elem? jobs n ≡ some x
    → weight y < weight x
    → Lower jobs (set_at jobs n y)
set_at-Lower jobs n x y h lt = record {
  same = set_at-length jobs n y;
  less = omega (arith, set_at-sum weight x jobs n y h, lt);
}

by_cases :
    (jobs : List Phase) (b : Bool) (m1 m2 m' : Manager)
    → Lower jobs m1.jobs
    → Lower jobs m2.jobs
    → some (if b then m1 else m2) ≡ some m'
    → Lower jobs m'.jobs
by_cases jobs true m1 m2 m' p q e =
    subst (λ (m : Manager). Lower jobs m.jobs) (some-injective _ _ e) p
by_cases jobs false m1 m2 m' p q e =
    subst (λ (m : Manager). Lower jobs m.jobs) (some-injective _ _ e) q

arrive-Lower :
    (capacity : ℕ) (m m' : Manager) (n : ℕ) (x : Option Phase)
    → get_elem? m.jobs n ≡ x
    → arrive_job capacity m n x ≡ some m'
    → Lower m.jobs m'.jobs
unfolding arrive_job
arrive-Lower capacity m m' n (some fresh) h e =
    by_cases m.jobs (at_capacity capacity m.stats) _ _ m'
      (set_at-Lower m.jobs n fresh waits h (omega arith))
      (set_at-Lower m.jobs n fresh runs h (omega arith)) e
arrive-Lower capacity m m' n (some waits) h e = cc e
arrive-Lower capacity m m' n (some woken) h e = cc e
arrive-Lower capacity m m' n (some runs) h e = cc e
arrive-Lower capacity m m' n (some over) h e = cc e
arrive-Lower capacity m m' n none h e = cc e

recheck-Lower :
    (capacity : ℕ) (m m' : Manager) (n wait : ℕ) (x : Option Phase)
    → get_elem? m.jobs n ≡ x
    → recheck_job capacity m n wait x ≡ some m'
    → Lower m.jobs m'.jobs
unfolding recheck_job
recheck-Lower capacity m m' n wait (some woken) h e =
    by_cases m.jobs (at_capacity capacity m.stats) _ _ m'
      (set_at-Lower m.jobs n woken waits h (omega arith))
      (set_at-Lower m.jobs n woken runs h (omega arith)) e
recheck-Lower capacity m m' n wait (some waits) h e = cc e
recheck-Lower capacity m m' n wait (some fresh) h e = cc e
recheck-Lower capacity m m' n wait (some runs) h e = cc e
recheck-Lower capacity m m' n wait (some over) h e = cc e
recheck-Lower capacity m m' n wait none h e = cc e

-- A wake-up adds one to the weight, at most.
record Near (jobs jobs' : List Phase) : Type 0 where
  same : length jobs' ≡ length jobs
  near : sum_by weight jobs' < sum_by weight jobs + 2

wake-Near :
    (m m' : Manager) (k : ℕ) (x : Option Phase)
    → get_elem? m.jobs k ≡ x
    → wake m k x ≡ some m'
    → Near m.jobs m'.jobs
unfolding wake
wake-Near m m' k (some waits) h e =
    subst (λ (x : Manager). Near m.jobs x.jobs) (some-injective _ _ e)
      record {
        same = set_at-length m.jobs k woken;
        near = omega (arith, set_at-sum weight waits m.jobs k woken h);
      }
wake-Near m m' k (some fresh) h e = cc e
wake-Near m m' k (some woken) h e = cc e
wake-Near m m' k (some runs) h e = cc e
wake-Near m m' k (some over) h e = cc e
wake-Near m m' k none h e = cc e

signal-Near : (m m' : Manager) (k : Option ℕ) → signal m k ≡ some m' → Near m.jobs m'.jobs
unfolding signal
signal-Near m m' (some k) e = wake-Near m m' k (get_elem? m.jobs k) refl e
signal-Near m m' none e = elim (Bool-cases (is_waiting m.jobs)) [
  | inl w ↦ cc (rw w at e)
  | inr w ↦
      subst (λ (x : Manager). Near m.jobs x.jobs) (some-injective _ _ (rw w at e))
        record { same = refl; near = omega arith }
]

finish-Lower :
    (capacity : ℕ) (m m' : Manager) (n : ℕ) (k : Option ℕ) (x : Option Phase)
    → get_elem? m.jobs n ≡ x
    → finish_job capacity m n k x ≡ some m'
    → Lower m.jobs m'.jobs
unfolding finish_job
finish-Lower capacity m m' n k (some runs) h e =
    let v = signal-Near _ m' k e in
    let s = set_at-sum weight runs m.jobs n over h in
    record { same = v.same ∙ set_at-length m.jobs n over; less = omega (arith, v.near, s) }
finish-Lower capacity m m' n k (some waits) h e = cc e
finish-Lower capacity m m' n k (some fresh) h e = cc e
finish-Lower capacity m m' n k (some woken) h e = cc e
finish-Lower capacity m m' n k (some over) h e = cc e
finish-Lower capacity m m' n k none h e = cc e

pub step-Lower :
    (capacity : ℕ) (m m' : Manager) (e : Event) → step capacity m e ≡ some m' → Lower m.jobs m'.jobs
unfolding step
step-Lower capacity m m' (arrive n) h = arrive-Lower capacity m m' n (get_elem? m.jobs n) refl h
step-Lower capacity m m' (recheck n wait) h =
    recheck-Lower capacity m m' n wait (get_elem? m.jobs n) refl h
step-Lower capacity m m' (finish n k) h = finish-Lower capacity m m' n k (get_elem? m.jobs n) refl h
