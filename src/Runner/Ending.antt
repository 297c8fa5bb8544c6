-- ===== src/Runner/Ending.antt =====
-- The dependency runner ends: schedules are bounded, and can be completed.
use test.Base.{
  ℕ, zero, suc, ◌+◌, ◌*◌, ◌≤◌, ◌<◌, ◌≡◌, inl, inr, refl, subst, false, List, [], ◌∷◌, Option, none,
  some, Str, lookup, Bool-cases, arith, length, ltb→lt, ltb→ge, ltb, Option-cases,
}
use test.Runner.{spawn, and_then, Group, State, size, step, Event, Reach, run, start, begin, next}
use mathlib.Core.Option.{some-injective}
use test.Runner.Progress.{IsAcyclic, acyclic-Enabled}
use test.Runner.Count.{Unique, Reach-Tally}
use test.Runner.Phases.{Then}
use test.Runner.Steps.{Reach-Inv}
use test.Runner.Measure.{weight, left_for, total, total-lt, Lower, step-Lower}

module _ (group : Group) where
  abbrev measure : State → ℕ
  measure s = total (left_for (size group) s) group

  step-measure :
      {s : State} (e : Event) (m : State)
      → Reach group s
      → step group s e ≡ some m
      → measure m < measure s
  step-measure {s} e m r q =
      let low = subst (Then (Lower group s)) q (step-Lower group s (Reach-Inv group r) e) in
      total-lt _ _ group low.at low.everywhere low.there low.listed

  run-measure :
      {s : State} (es : List Event) (t : State)
      → Reach group s
      → run group s es ≡ some t
      → length es + measure t ≤ measure s
  unfolding run
  run-measure {s} [] t r h =
      subst (λ x. 0 + measure x ≤ measure s) (some-injective s t h) (omega arith)
  run-measure {s} (e ∷ es) t r h = elim (Option-cases (step group s e)) [
    | inl q ↦ let x : and_then none (λ m. run group m es) ≡ some t = rw q at h in cc x
    | inr (m, q) ↦
        let x : and_then (some m) (λ m. run group m es) ≡ some t = rw q at h in
        omega (arith, step-measure e m r q, run-measure es t (next e r q) x)
  ]

  -- What a schedule reaches, some interleaving reaches.
  pub run-Reach :
      {s : State} (es : List Event) (t : State)
      → Reach group s
      → run group s es ≡ some t
      → Reach group t
  unfolding run
  run-Reach {s} [] t r h = subst (Reach group) (some-injective s t h) r
  run-Reach {s} (e ∷ es) t r h = elim (Option-cases (step group s e)) [
    | inl q ↦ let x : and_then none (λ m. run group m es) ≡ some t = rw q at h in cc x
    | inr (m, q) ↦
        let x : and_then (some m) (λ m. run group m es) ≡ some t = rw q at h in
        run-Reach es t (next e r q) x
  ]

  weight-spawn : (o : Option (List Str)) → weight (spawn o) false ≤ 2
  unfolding spawn
  weight-spawn none = omega arith
  weight-spawn (some deps) = omega arith

  measure-start : (n : ℕ) (g : Group) → total (left_for n (start group)) g ≤ length g * (n + 2)
  unfolding total left_for start
  measure-start n [] = omega arith
  measure-start n ((id, deps) ∷ g) =
      omega (arith, measure-start n g, weight-spawn (lookup id group))

  -- No schedule of a group of n tests has more than n * (n + 2) events.
  pub run-length :
      (es : List Event) (t : State)
      → run group (start group) es ≡ some t
      → length es ≤ size group * (size group + 2)
  run-length es t h = omega (arith, run-measure es t begin h, measure-start (size group) group)

module _ (group : Group) (rank : Str → ℕ) (acyclic : IsAcyclic group rank) (u : Unique group) where
  complete :
      (k : ℕ) {s : State}
      → measure group s < k
      → Reach group s
      → (es : List Event) × (t : State) × (run group s es ≡ some t) × (t.results ≡ size group)
  unfolding run
  complete zero m r = absurd (omega arith)
  complete (suc k) {s} m r = elim (Bool-cases (ltb s.results (size group))) [
    | inl lt ↦
        let (e, t, q) = acyclic-Enabled group rank acyclic r (ltb→lt _ _ lt) u in
        let (es, t', h, n) = complete k (omega (arith, step-measure group e t r q)) (next e r q) in
        (e ∷ es, t', rw (q, run) h, n)
    | inr ge ↦ ([], s, refl, omega (arith, Reach-Tally group u r, ltb→ge s.results (size group) ge))
  ]

  -- If the group has each id once, each dependency of its tests is in it, and there is no cycle of
  -- dependencies, every run can be completed, from whatever state it has come to: all results arrive,
  -- and the loop ends.
  pub acyclic-completes :
      {s : State}
      → Reach group s
      → (es : List Event) × (t : State) × (run group s es ≡ some t) × (t.results ≡ size group)
  acyclic-completes {s} r = complete (suc (measure group s)) (omega arith) r
