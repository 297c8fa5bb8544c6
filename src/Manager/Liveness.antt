-- ===== src/Manager/Liveness.antt =====
-- The manager is never stuck, and it runs all jobs in the end.
use test.Base.{
  ℕ, suc, ◌+◌, ◌≡◌, ◌<◌, refl, ap, ◌∙◌, ◌⊎◌, inl, inr, true, List, [], ◌∷◌, Option, none, some,
  get_elem?, length, sum_by, ltb, arith, Bool-cases,
}
use test.Manager.{
  Phase, fresh, waits, woken, runs, over, Manager, Event, arrive, recheck, finish, set_at, retire,
  is_waiting, wake, signal, arrive_job, recheck_job, finish_job, step, Reach,
}
use test.Manager.Counting.{one_waits, one_woken, one_runs, one_over}
use test.Manager.Limits.{Limits}
use test.Manager.Bounds.{Reach-Limits}

abbrev one_fresh : Phase → ℕ
one_fresh fresh = 1
one_fresh _ = 0

find :
    (f : Phase → ℕ) (jobs : List Phase)
    → 0 < sum_by f jobs
    → (n : ℕ) × (x : Phase) × (get_elem? jobs n ≡ some x) × (0 < f x)
find f [] h = ground arith
find f (x ∷ xs) h = elim (Bool-cases (ltb 0 (f x))) [
  | inl e ↦ (0, x, refl, ground arith)
  | inr e ↦ let (n, y, g, l) = find f xs (ground arith) in (suc n, y, g, l)
]

waits-or-not : (jobs : List Phase) → is_waiting jobs ≡ true → 0 < sum_by one_waits jobs
unfolding is_waiting
waits-or-not [] h = cc h
waits-or-not (fresh ∷ js) h = omega (arith, waits-or-not js h)
waits-or-not (waits ∷ js) h = omega arith
waits-or-not (woken ∷ js) h = omega (arith, waits-or-not js h)
waits-or-not (runs ∷ js) h = omega (arith, waits-or-not js h)
waits-or-not (over ∷ js) h = omega (arith, waits-or-not js h)

pub all_phases :
    (jobs : List Phase)
    → sum_by one_fresh jobs
        + sum_by one_waits jobs
        + sum_by one_woken jobs
        + sum_by one_runs jobs
        + sum_by one_over jobs
      ≡ length jobs
all_phases [] = refl
all_phases (fresh ∷ js) = omega (arith, all_phases js)
all_phases (waits ∷ js) = omega (arith, all_phases js)
all_phases (woken ∷ js) = omega (arith, all_phases js)
all_phases (runs ∷ js) = omega (arith, all_phases js)
all_phases (over ∷ js) = omega (arith, all_phases js)

module _ (capacity : ℕ) where
  abbrev Enabled : Manager → Type 0
  Enabled m = (e : Event) × (m' : Manager) × (step capacity m e ≡ some m')

  can_arrive :
      (m : Manager) (n : ℕ) (x : Phase) → get_elem? m.jobs n ≡ some x → 0 < one_fresh x → Enabled m
  unfolding step arrive_job
  can_arrive m n fresh h lt = (arrive n, _, ap (arrive_job capacity m n) h)
  can_arrive m n waits h lt = ground arith
  can_arrive m n woken h lt = ground arith
  can_arrive m n runs h lt = ground arith
  can_arrive m n over h lt = ground arith

  can_recheck :
      (m : Manager) (n : ℕ) (x : Phase) → get_elem? m.jobs n ≡ some x → 0 < one_woken x → Enabled m
  unfolding step recheck_job
  can_recheck m n woken h lt = (recheck n 0, _, ap (recheck_job capacity m n 0) h)
  can_recheck m n waits h lt = ground arith
  can_recheck m n fresh h lt = ground arith
  can_recheck m n runs h lt = ground arith
  can_recheck m n over h lt = ground arith

  -- The goroutine that `Signal` wakes, or none.
  can_signal : (m : Manager) → (k : Option ℕ) × (m' : Manager) × (signal m k ≡ some m')
  unfolding signal wake
  can_signal m = elim (Bool-cases (is_waiting m.jobs)) [
    | inr w ↦ (none, m, rw w refl)
    | inl w ↦ let (k, x, g, l) = find one_waits m.jobs (waits-or-not m.jobs w) in pick k x g l
  ]
    where
      pick :
          (k : ℕ) (x : Phase)
          → get_elem? m.jobs k ≡ some x
          → 0 < one_waits x
          → (k : Option ℕ) × (m' : Manager) × (signal m k ≡ some m')
      pick k waits h lt = (some k, _, ap (wake m k) h)
      pick k fresh h lt = ground arith
      pick k woken h lt = ground arith
      pick k runs h lt = ground arith
      pick k over h lt = ground arith

  can_finish :
      (m : Manager) (n : ℕ) (x : Phase) → get_elem? m.jobs n ≡ some x → 0 < one_runs x → Enabled m
  unfolding step finish_job
  can_finish m n runs h lt =
      let (k, m', e) =
        can_signal (record { stats = retire m.stats; jobs = set_at m.jobs n over }) in
      (finish n k, m', ap (finish_job capacity m n k) h ∙ e)
  can_finish m n waits h lt = ground arith
  can_finish m n fresh h lt = ground arith
  can_finish m n woken h lt = ground arith
  can_finish m n over h lt = ground arith

  abbrev SomeJob : (f : Phase → ℕ) → Manager → Type 0
  SomeJob f m = 0 < sum_by f m.jobs

  Limits-Enabled : (m : Manager) → Limits capacity m → m.stats.finished < length m.jobs → Enabled m
  Limits-Enabled m v lt = elim (cases) [
    | inl f ↦ let (n, x, g, l) = find one_fresh m.jobs f in can_arrive m n x g l
    | inr (inl f) ↦ let (n, x, g, l) = find one_woken m.jobs f in can_recheck m n x g l
    | inr (inr f) ↦ let (n, x, g, l) = find one_runs m.jobs f in can_finish m n x g l
  ]
    where
      cases : SomeJob one_fresh m ⊎ (SomeJob one_woken m ⊎ SomeJob one_runs m)
      cases = ground (arith, all_phases m.jobs, v.finished, v.full, v.unlimited, v.running)

  -- The manager is never stuck: while a job is not over, some goroutine can go on.
  pub Reach-Enabled :
      (n : ℕ) (m : Manager) → Reach capacity n m → m.stats.finished < length m.jobs → Enabled m
  Reach-Enabled n m r lt = Limits-Enabled m (Reach-Limits capacity n m r) lt
