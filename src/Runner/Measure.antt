-- ===== src/Runner/Measure.antt =====
-- A measure that every event of the dependency runner lowers.
use test.Base.{
  ℕ, ◌+◌, ◌-◌, ◌≤◌, ◌<◌, ◌≡◌, inl, inr, refl, subst, Bool, true, false, List, [], ◌∷◌, some, Str,
  str_eq, eq_of_str_eq, Dict, lookup, Bool-cases, arith, length, if◌then◌else◌, ltb→lt, has_key,
  &&-true, ltb, ◌&&◌, has_key_of_lookup, length-append,
}
use test.Runner.{
  TestResult, Waiter, waits, aborting, gone, Group, State, skip, size, is_final, take_message,
  receive, update, report, ready_case, abort_case, result_case, step, Event, message, ready,
  aborted, result, try_send,
}
use test.Runner.Report.{Inv}
use test.Runner.Phases.{Then, phase, job-phase, update_self, update-ne}

abbrev pub weight : Waiter → Bool → ℕ
weight (waits _) job = 2
weight aborting job = 1
weight gone true = 1
weight gone false = 0

-- What is left to do for a test: results to come, messages to read, and its own two moves.
unfoldable pub left_for : ℕ → State → Str → ℕ
left_for n s id = (n - s.results) + length (s.chan id) + weight (s.waiter id) (s.jobs id)

unfoldable pub total : (Str → ℕ) → Group → ℕ
total f [] = 0
total f ((id, deps) ∷ g) = f id + total f g

total-le : (f h : Str → ℕ) (g : Group) → ((j : Str) → h j ≤ f j) → total h g ≤ total f g
unfolding total
total-le f h [] le = omega arith
total-le f h ((id, deps) ∷ g) le = omega (arith, total-le f h g le, le id)

pub total-lt :
    (f h : Str → ℕ) (g : Group) (k : Str)
    → ((j : Str) → h j ≤ f j)
    → h k < f k
    → has_key k g ≡ true
    → total h g < total f g
unfolding total has_key
total-lt f h [] k le lt key = cc
total-lt f h ((id, deps) ∷ g) k le lt key = elim (Bool-cases (str_eq id k)) [
  | inl e ↦ let p : h id < f id = rw (eq_of_str_eq id k e) lt in omega (arith, total-le f h g le)
  | inr e ↦ omega (arith, total-lt f h g k le lt (rw e at key), le id)
]

-- The measure of `t` is lower than that of `s`.
pub record Lower (group : Group) (s t : State) : Type 0 where
  pub at : Str
  pub listed : has_key at group ≡ true
  pub everywhere : (j : Str) → left_for (size group) t j ≤ left_for (size group) s j
  pub there : left_for (size group) t at < left_for (size group) s at

try_send-le :
    (cap : ℕ) (id : Str) (r : TestResult) (c : Dict TestResult)
    → length (try_send cap id r c) ≤ length c + 1
unfolding try_send
try_send-le cap id r c = ground (arith, length-append c ((id, r) ∷ []))

module _ (group : Group) (s : State) (v : Inv group s) where
  -- Where a state differs from `s` in one test's own parts only, that test decides.
  own_part :
      (t : State) (id : Str) (deps : List Str)
      → lookup id group ≡ some deps
      → t.results ≡ s.results
      → ((j : Str) → str_eq id j ≡ false → left_for (size group) t j ≡ left_for (size group) s j)
      → left_for (size group) t id < left_for (size group) s id
      → Lower group s t
  own_part t id deps l n same lt = record {
    at = id;
    listed = has_key_of_lookup id group deps l;
    everywhere = λ j. elim (Bool-cases (str_eq id j)) [
      | inl e ↦
          subst (λ k. left_for (size group) t k ≤ left_for (size group) s k) (eq_of_str_eq id j e)
            (omega arith)
      | inr e ↦ omega (arith, same j e)
    ];
    there = lt;
  }

  weight-receive :
      (left : List Str) (k : Str) (r : TestResult) (job : Bool) → weight (receive left k r) job ≤ 2
  unfolding receive
  weight-receive left k r job = ground arith

  take-Lower :
      (id : Str) (w : Waiter) (c : Dict TestResult)
      → s.waiter id ≡ w
      → s.chan id ≡ c
      → Then (Lower group s) (take_message group s id w c)
  unfolding take_message left_for
  take-Lower id (waits []) c ew ec = tt
  take-Lower id (waits (d ∷ ds)) [] ew ec = tt
  take-Lower id (waits (d ∷ ds)) ((k, r) ∷ rest) ew ec =
      let (deps, l, p) = phase group s v id (waits (d ∷ ds)) ew (λ e. cc) in
      own_part
        (record s {
          waiter = update s.waiter id (receive (d ∷ ds) k r);
          chan = update s.chan id rest;
        })
        id deps l refl
        (λ j e. rw (update-ne s.waiter id (receive (d ∷ ds) k r) j e, update-ne s.chan id rest j e))
        (rw (update_self s.waiter id (receive (d ∷ ds) k r), update_self s.chan id rest, ew, ec)
          (omega (arith, weight-receive (d ∷ ds) k r (s.jobs id))))
  take-Lower id aborting c ew ec = tt
  take-Lower id gone c ew ec = tt

  ready-Lower :
      (id : Str) (w : Waiter) → s.waiter id ≡ w → Then (Lower group s) (ready_case group s id w)
  unfolding ready_case left_for
  ready-Lower id (waits []) ew =
      let (deps, l, p) = phase group s v id (waits []) ew (λ e. cc) in
      own_part
        (record s {
          waiter = update s.waiter id gone;
          waiting = update s.waiting id false;
          jobs = update s.jobs id true;
        })
        id deps l refl (λ j e. rw (update-ne s.waiter id gone j e, update-ne s.jobs id true j e))
        (rw (update_self s.waiter id gone, update_self s.jobs id true, ew) (omega arith))
  ready-Lower id (waits (d ∷ ds)) ew = tt
  ready-Lower id aborting ew = tt
  ready-Lower id gone ew = tt

  -- A broadcast puts at most one message on a channel, and there is one result less to come.
  report-le :
      (t : State) (id : Str) (r : TestResult) (j : Str)
      → t.results < size group
      → left_for (size group) (report group t id r) j ≤ left_for (size group) t j
  unfolding report left_for
  report-le t id r j lt = omega (arith, either (t.waiting j))
    where
      either :
          (b : Bool)
          → length (if b then try_send (size group) id r (t.chan j) else t.chan j)
            ≤ length (t.chan j) + 1
      either true = try_send-le (size group) id r (t.chan j)
      either false = omega arith

  report-Lower :
      (t : State) (id : Str) (r : TestResult)
      → t.results < size group
      → Lower group s t
      → Lower group s (report group t id r)
  report-Lower t id r lt h = record {
    at = h.at;
    listed = h.listed;
    everywhere = λ j. omega (arith, h.everywhere j, report-le t id r j lt);
    there = omega (arith, h.there, report-le t id r h.at lt);
  }

  abort-Lower :
      (id : Str) (w : Waiter)
      → s.waiter id ≡ w
      → s.results < size group
      → Then (Lower group s) (abort_case group s id w)
  unfolding abort_case left_for
  abort-Lower id (waits ds) ew lt = tt
  abort-Lower id aborting ew lt =
      let (deps, l, p) = phase group s v id aborting ew (λ e. cc) in
      let t : State = record s {
        waiter = update s.waiter id gone;
        waiting = update s.waiting id false;
      } in
      report-Lower t id skip lt (
        own_part t id deps l refl (λ j e. rw (update-ne s.waiter id gone j e))
          (rw (update_self s.waiter id gone, ew, p.1) (omega arith)))
  abort-Lower id gone ew lt = tt

  result-Lower :
      (id : Str) (r : TestResult)
      → s.results < size group
      → Then (Lower group s) (result_case group s id r)
  unfolding result_case left_for
  result-Lower id r lt = elim (Bool-cases (s.jobs id && is_final r)) [
    | inl e ↦
        let (job, final) = &&-true (s.jobs id) (is_final r) e in
        let (deps, l, p) = job-phase group s v id job in
        let t : State = record s { jobs = update s.jobs id false } in
        rw e (
          report-Lower t id r lt (
            own_part t id deps l refl (λ j x. rw (update-ne s.jobs id false j x))
              (rw (update_self s.jobs id false, job, p.0) (omega arith))))
    | inr e ↦ rw e tt
  ]

  pub step-Lower : (e : Event) → Then (Lower group s) (step group s e)
  unfolding step
  step-Lower (message id) = take-Lower id (s.waiter id) (s.chan id) refl refl
  step-Lower (ready id) = elim (Bool-cases (ltb s.results (size group))) [
    | inl e ↦ rw e (ready-Lower id (s.waiter id) refl)
    | inr e ↦ rw e tt
  ]
  step-Lower (aborted id) = elim (Bool-cases (ltb s.results (size group))) [
    | inl e ↦ rw e (abort-Lower id (s.waiter id) refl (ltb→lt _ _ e))
    | inr e ↦ rw e tt
  ]
  step-Lower (result id r) = elim (Bool-cases (ltb s.results (size group))) [
    | inl e ↦ rw e (result-Lower id r (ltb→lt _ _ e))
    | inr e ↦ rw e tt
  ]
