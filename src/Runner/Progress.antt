-- ===== src/Runner/Progress.antt =====
-- The dependency runner does not get stuck: without a cycle there is always a next event, and the
-- number of events is bounded.
use mathlib.Core.Option.{some-injective}
use test.Base.{
  All, ℕ, zero, suc, ◌+◌, ◌<◌, ◌≡◌, ◌≢◌, inl, inr, refl, sym, subst, Bool, true, false, List, [],
  ◌∷◌, none, some, Str, str_eq, str_eq_refl, eq_of_str_eq, has, Dict, lookup, Bool-cases, arith,
  has_key, ltb, lookup_of_has_key, Option-cases,
}
use test.Runner.{
  TestResult, Waiter, waits, aborting, gone, Group, State, size, correct, step, Event, message,
  ready, aborted, result, Reach,
}
use test.Runner.Invariant.{Waits, At, TestAt}
use test.Runner.Steps.{Reach-Inv}
use test.Runner.Count.{Unique, Reach-Tally, missing}

-- A rank falls from a test to its dependencies, and these are in the group: no cycle.
pub record IsAcyclic (group : Group) (rank : Str → ℕ) : Type 0 where
  pub closed :
      (id : Str) (deps : List Str) (d : Str)
      → lookup id group ≡ some deps
      → has d deps ≡ true
      → (has_key d group ≡ true) × (rank d < rank id)

-- The same, entry by entry: a form that computes on a concrete group.
abbrev pub IsBelow : Group → (Str → ℕ) → Str × List Str → Type 0
IsBelow group rank e = All (λ d. (has_key d group ≡ true) × (rank d < rank e.0)) e.1

All-has : (P : Str → Type 0) (deps : List Str) (d : Str) → All P deps → has d deps ≡ true → P d
unfolding has
All-has P [] d h m = cc
All-has P (x ∷ xs) d h m = elim (Bool-cases (str_eq x d)) [
  | inl e ↦ subst P (eq_of_str_eq x d e) h.0
  | inr e ↦ All-has P xs d h.1 (rw e at m)
]

All-lookup :
    (P : Str × List Str → Type 0) (g : Group) (id : Str) (deps : List Str)
    → All P g
    → lookup id g ≡ some deps
    → P (id, deps)
unfolding lookup
All-lookup P [] id deps h l = cc
All-lookup P ((j, ds) ∷ g) id deps h l = elim (Bool-cases (str_eq j id)) [
  | inl e ↦
      let l' : some ds ≡ some deps = rw e at l in
      let p : P (id, ds) = subst (λ i. P (i, ds)) (eq_of_str_eq j id e) h.0 in
      subst (λ x. P (id, x)) (some-injective ds deps l') p
  | inr e ↦ All-lookup P g id deps h.1 (rw e at l)
]

pub All-IsAcyclic :
    (group : Group) (rank : Str → ℕ) → All (IsBelow group rank) group → IsAcyclic group rank
All-IsAcyclic group rank h = record {
  closed = λ id deps d l m. All-has _ deps d (All-lookup (IsBelow group rank) group id deps h l) m;
}

abbrev pub Enabled : Group → State → Type 0
Enabled group s = (e : Event) × (t : State) × (step group s e ≡ some t)

some_missing :
    (c : Dict TestResult) (g : Group)
    → 0 < missing c g
    → (id : Str) × (has_key id g ≡ true) × (lookup id c ≡ none)
unfolding missing has_key
some_missing c [] h = absurd (omega arith)
some_missing c ((id, deps) ∷ g) h = elim (Option-cases (lookup id c)) [
  | inl e ↦ (id, rw (str_eq_refl id), e)
  | inr (x, e) ↦
      let h' : 0 < 0 + missing c g = rw e at h in
      let (j, k, n) = some_missing c g (omega arith) in (j, ground arith, n)
]

module _ (group : Group) (rank : Str → ℕ) (acyclic : IsAcyclic group rank) {s : State}
    (r : Reach group s) (lt : s.results < size group) where
  loop_open : ltb s.results (size group) ≡ true
  loop_open = ground arith

  enabled : (e : Event) → step group s e ≢ none → Enabled group s
  enabled e h = elim (Option-cases (step group s e)) [
    | inl n ↦ absurd (h n)
    | inr (t, q) ↦ (e, t, q)
  ]

  -- A goroutine with a message reads it; without one it waits for a dependency that has not
  -- reported.
  waiting_case :
      (id d : Str) (ds deps : List Str) (c : Dict TestResult)
      → s.waiter id ≡ waits (d ∷ ds)
      → s.chan id ≡ c
      → Waits deps s.callbacks c (d ∷ ds)
      → ((has d deps ≡ true) → lookup d s.callbacks ≡ none → Enabled group s)
      → Enabled group s
  unfolding step has lookup
  waiting_case id d ds deps [] ew ec w blocked =
      let m : has d (d ∷ ds) ≡ true = rw (str_eq_refl d) in
      blocked (w.among d m) (sym (w.in_sync d m))
  waiting_case id d ds deps ((k, x) ∷ rest) ew ec w blocked =
      enabled (message id) (rw (ew, ec) (λ e. cc))

  phase_case :
      (id : Str) (w : Waiter) (job waiting : Bool) (deps : List Str)
      → s.waiter id ≡ w
      → s.jobs id ≡ job
      → At deps s.callbacks (s.chan id) w job waiting none
      → ((d : Str) → has d deps ≡ true → lookup d s.callbacks ≡ none → Enabled group s)
      → Enabled group s
  unfolding step
  phase_case id (waits []) job waiting deps ew ej h blocked =
      enabled (ready id) (rw (loop_open, ew) (λ e. cc))
  phase_case id (waits (d ∷ ds)) job waiting deps ew ej h blocked =
      waiting_case id d ds deps (s.chan id) ew refl h.0 (blocked d)
  phase_case id aborting job waiting deps ew ej h blocked =
      enabled (aborted id) (rw (loop_open, ew) (λ e. cc))
  phase_case id gone true waiting deps ew ej h blocked =
      enabled (result id correct) (rw (loop_open, ej) (λ e. cc))
  phase_case id gone false waiting deps ew ej h blocked = absurd h.1

  descend :
      (k : ℕ) (id : Str)
      → rank id < k
      → has_key id group ≡ true
      → lookup id s.callbacks ≡ none
      → Enabled group s
  descend zero id below key n = absurd (omega arith)
  descend (suc k) id below key n =
      let (deps, l) = lookup_of_has_key id group key in
      let at_id : TestAt s id (some deps) = rw l at ((Reach-Inv group r).tests id) in
      phase_case id (s.waiter id) (s.jobs id) (s.waiting id) deps refl refl (rw n at at_id)
        λ d m free.
          let (listed, lower) = acyclic.closed id deps d l m in
          descend k d (omega arith) listed free

  -- Without a cycle the runner is never stuck: while results are missing, some goroutine can go on.
  pub acyclic-Enabled : Unique group → Enabled group s
  acyclic-Enabled u =
      let (id, key, n) = some_missing s.callbacks group (omega (arith, Reach-Tally group u r)) in
      descend (suc (rank id)) id (omega arith) key n
