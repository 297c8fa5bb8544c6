-- ===== src/Manager/Ending.antt =====
-- All jobs are run in the end, in a bounded number of events.
use test.Base.{
  ℕ, zero, suc, ◌+◌, ◌*◌, ◌≡◌, ◌≤◌, ◌<◌, refl, ap, ◌∙◌, inl, inr, List, [], ◌∷◌, some, length,
  sum_by, arith, ltb, Bool-cases, Option-cases,
}
use mathlib.Core.Option.{some-injective}
use test.Manager.{Manager, Event, step, start, Reach, begin, next, all_fresh, run}
use test.Manager.Bounds.{Reach-Limits}
use test.Manager.Liveness.{all_phases, Reach-Enabled}
use test.Manager.Weights.{weight, step-Lower}

all_fresh-weight : (n : ℕ) → (length (all_fresh n) ≡ n) × (sum_by weight (all_fresh n) ≡ 3 * n)
unfolding all_fresh
all_fresh-weight zero = (refl, refl)
all_fresh-weight (suc n) = let (a, b) = all_fresh-weight n in (omega (arith, a), omega (arith, b))

module _ (capacity : ℕ) where
  run-weight :
      (es : List Event) (m m' : Manager)
      → run capacity m es ≡ some m'
      → length es + sum_by weight m'.jobs ≤ sum_by weight m.jobs
  unfolding run
  run-weight [] m m' h =
      let e = ap (λ (x : Manager). sum_by weight x.jobs) (some-injective m m' h) in omega (arith, e)
  run-weight (e ∷ es) m m' h = elim (Option-cases (step capacity m e)) [
    | inl q ↦ cc (rw (q, run) at h)
    | inr (m1, q) ↦
        omega (arith, (step-Lower capacity m m1 e q).less, run-weight es m1 m' (rw (q, run) at h))
  ]

  -- No schedule of `n` jobs on the manager has more than 3 * n events.
  pub events_le :
      (n : ℕ) (es : List Event) (m : Manager)
      → run capacity (start n) es ≡ some m
      → length es ≤ 3 * n
  unfolding start
  events_le n es m h = omega (arith, run-weight es (start n) m h, (all_fresh-weight n).1)

  run-more :
      (e : Event) (es : List Event) (m m1 m' : Manager)
      → step capacity m e ≡ some m1
      → run capacity m1 es ≡ some m'
      → run capacity m (e ∷ es) ≡ some m'
  unfolding run
  run-more e es m m1 m' q h = rw (q, run) h

  Reach-jobs : (n : ℕ) (m : Manager) → Reach capacity n m → length m.jobs ≡ n
  unfolding start
  Reach-jobs n m begin = (all_fresh-weight n).0
  Reach-jobs n m (next {m = m0} e r q) = (step-Lower capacity m0 m e q).same ∙ Reach-jobs n m0 r

  abbrev Completed : ℕ → Manager → Type 0
  Completed n m =
      (es : List Event) × (m' : Manager) × (run capacity m es ≡ some m') × (m'.stats.finished ≡ n)

  complete :
      (fuel n : ℕ) (m : Manager) → sum_by weight m.jobs < fuel → Reach capacity n m → Completed n m
  unfolding run
  complete zero n m lt r = ground arith
  complete (suc fuel) n m lt r = elim (Bool-cases (ltb m.stats.finished (length m.jobs))) [
    | inl h ↦
        let (e, m1, q) = Reach-Enabled capacity n m r (ground arith) in
        let (es, m2, s, f) =
          complete fuel n m1 (omega (arith, lt, (step-Lower capacity m m1 e q).less))
            (next e r q) in
        (e ∷ es, m2, run-more e es m m1 m2 q s, f)
    | inr h ↦ (
      [],
      m,
      refl,
      ground (arith, (Reach-Limits capacity n m r).finished, all_phases m.jobs, Reach-jobs n m r),
    )
  ]

  -- From every state that the manager reaches with `n` jobs, some schedule finishes all of them,
  -- whatever the capacity is.
  pub Reach-Completed : (n : ℕ) (m : Manager) → Reach capacity n m → Completed n m
  Reach-Completed n m r = complete (suc (sum_by weight m.jobs)) n m (omega arith) r
