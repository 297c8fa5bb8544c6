-- ===== src/Runner/Safety.antt =====
-- When the dependency runner starts a test, and when it skips one.
use test.Base.{
  ◌+◌, ◌≡◌, ◌≢◌, ◌⊎◌, inl, inr, refl, Bool, true, false, List, [], ◌∷◌, none, some, Str, str_eq,
  eq_of_str_eq, Option-cases, has, Dict, lookup, Bool-cases, arith, has_key, ltb, has_key_of_lookup,
}
use test.Runner.{
  TestResult, Waiter, waits, aborting, gone, Group, State, skip, size, ready_case, abort_case, step,
  ready, aborted, Reach,
}
use test.Runner.Invariant.{Cleared, Failed, At, TestAt}
use test.Runner.Phases.{phase}
use test.Runner.Steps.{Reach-Inv}
use test.Runner.Count.{Unique, Reach-Tally, missing}

module _ (group : Group) {s : State} (r : Reach group s) where
  abbrev Has : Str → (List Str → Type 0) → Type 0
  Has id P = (deps : List Str) × (lookup id group ≡ some deps) × P deps

  ready_waiter :
      (id : Str) (w : Waiter) (t : State)
      → s.waiter id ≡ w
      → ready_case group s id w ≡ some t
      → s.waiter id ≡ waits []
  unfolding ready_case
  ready_waiter id (waits []) t e h = e
  ready_waiter id (waits (d ∷ ds)) t e h = cc
  ready_waiter id aborting t e h = cc
  ready_waiter id gone t e h = cc

  -- The manager is given a test of the group only when every one of its dependencies has
  -- reported, and the report was `correct`.
  pub ready-Cleared :
      (id : Str) (t : State)
      → step group s (ready id) ≡ some t
      → (deps : List Str) × (lookup id group ≡ some deps) × Cleared deps s.callbacks
  unfolding step has
  ready-Cleared id t h = elim (Bool-cases (ltb s.results (size group))) [
    | inl lt ↦
        let e = ready_waiter id (s.waiter id) t refl (rw lt at h) in
        let (deps, l, p) = phase group s (Reach-Inv group r) id (waits []) e (λ e. cc) in
        (deps, l, λ d m. p.0.cleared d m refl)
    | inr full ↦ cc (rw full at h)
  ]

  abort_waiter :
      (id : Str) (w : Waiter) (t : State)
      → s.waiter id ≡ w
      → abort_case group s id w ≡ some t
      → s.waiter id ≡ aborting
  unfolding abort_case
  abort_waiter id (waits ds) t e h = cc
  abort_waiter id aborting t e h = e
  abort_waiter id gone t e h = cc

  -- A test is skipped only when one of its dependencies has reported a result that is not
  -- `correct`.
  pub aborted-Failed :
      (id : Str) (t : State)
      → step group s (aborted id) ≡ some t
      → (deps : List Str) × (lookup id group ≡ some deps) × Failed deps s.callbacks
  unfolding step
  aborted-Failed id t h = elim (Bool-cases (ltb s.results (size group))) [
    | inl lt ↦
        let e = abort_waiter id (s.waiter id) t refl (rw lt at h) in
        let (deps, l, p) = phase group s (Reach-Inv group r) id aborting e (λ e. cc) in
        (deps, l, p.0)
    | inr full ↦ cc (rw full at h)
  ]

-- With nothing missing every id of the group has a report.
no_missing :
    (c : Dict TestResult) (g : Group) (id : Str)
    → missing c g ≡ 0
    → has_key id g ≡ true
    → lookup id c ≢ none
unfolding missing has_key
no_missing c [] id m h e = cc
no_missing c ((j, deps) ∷ g) id m h e = elim (Bool-cases (str_eq j id)) [
  | inl same ↦
      let n : lookup j c ≡ none = rw (eq_of_str_eq j id same) e in
      let m' : 1 + missing c g ≡ 0 = rw n at m in omega arith
  | inr other ↦ no_missing c g id (omega arith) (rw other at h) e
]

reported :
    (deps : List Str) (c chan : Dict TestResult) (w : Waiter) (job waiting : Bool) (x : TestResult)
    → At deps c chan w job waiting (some x)
    → ((x ≡ skip) × Failed deps c) ⊎ ((x ≢ skip) × Cleared deps c)
reported deps c chan (waits left) job waiting x h = cc (h.3)
reported deps c chan aborting job waiting x h = cc (h.3)
reported deps c chan gone true waiting x h = cc (h.1.0)
reported deps c chan gone false waiting x h = h.1

module _ (group : Group) (u : Unique group) {s : State} (r : Reach group s) where
  -- When the runner's loop ends, each test of the group has one report: `skip` and a dependency
  -- with a report that is not `correct`, or another result and only correct dependencies.
  pub ended-Over :
      s.results ≡ size group
      → (id : Str) (deps : List Str) → lookup id group ≡ some deps
      → (x : TestResult) × (lookup id s.callbacks ≡ some x)
        × (((x ≡ skip) × Failed deps s.callbacks) ⊎ ((x ≢ skip) × Cleared deps s.callbacks))
  ended-Over ended id deps l = elim (Option-cases (lookup id s.callbacks)) [
    | inl e ↦ absurd (
        no_missing s.callbacks group id (omega (arith, Reach-Tally group u r))
          (has_key_of_lookup id group deps l) e)
    | inr (x, e) ↦
        let here : TestAt s id (some deps) = rw l at ((Reach-Inv group r).tests id) in
        (
          x,
          e,
          reported deps s.callbacks (s.chan id) (s.waiter id) (s.jobs id) (s.waiting id) x
              (rw e at here),
        )
  ]
