-- ===== src/Runner/Report.antt =====
-- The invariant of the dependency runner, and a report to every test that waits.
use test.Base.{
  ℕ, ◌+◌, ◌≤◌, ◌<◌, ◌≡◌, ◌≢◌, ◌⊎◌, inl, inr, refl, subst, Bool, true, false, List, [], ◌∷◌, Option,
  none, some, Str, str_eq, eq_of_str_eq, Dict, lookup, Bool-cases, lookup-snoc_ne, lookup-snoc_self,
  arith, length, if◌then◌else◌, length-append,
}
use test.Runner.{TestResult, gone, Group, State, skip, size, report, try_send}
use test.Runner.Invariant.{Cleared, Failed, Over, TestAt, Tests}
use test.Runner.Preserve.{more, At-more, Cleared-more, Failed-more}

-- Each test stands in one of its phases, each channel holds no more than was reported, and the
-- reports are counted.
pub record Inv (group : Group) (s : State) : Type 0 where
  pub tests : Tests group s
  pub fits : (id : Str) → length (s.chan id) ≤ s.results
  pub counted : length s.callbacks ≡ s.results

-- A buffer with room takes the message.
pub try_send-room :
    (cap : ℕ) (id : Str) (r : TestResult) (c : Dict TestResult)
    → length c < cap
    → try_send cap id r c ≡ more id r c
unfolding try_send
try_send-room cap id r c h = ground arith

module _ (group : Group) (s : State) (id : Str) (r : TestResult) (deps : List Str)
    (listed : lookup id group ≡ some deps) (fits : (j : Str) → length (s.chan j) ≤ s.results)
    (counted : length s.callbacks ≡ s.results) (open_loop : s.results < size group)
    (others : (j : Str) → str_eq id j ≡ false → TestAt s j (lookup j group))
    (returned : s.waiter id ≡ gone) (removed : s.waiting id ≡ false) (idle : s.jobs id ≡ false)
    (unreported : lookup id s.callbacks ≡ none)
    (outcome : ((r ≡ skip) × Failed deps s.callbacks)
      ⊎ ((r ≢ skip) × Cleared deps s.callbacks)) where
  sent : try_send (size group) id r s.callbacks ≡ more id r s.callbacks
  sent = try_send-room (size group) id r s.callbacks (omega arith)

  report_self : TestAt (report group s id r) id (some deps)
  unfolding report
  report_self =
      rw (sent, lookup-snoc_self id r s.callbacks unreported, returned, removed, idle)
        (refl, over outcome)
    where
      over :
          ((r ≡ skip) × Failed deps s.callbacks) ⊎ ((r ≢ skip) × Cleared deps s.callbacks)
          → Over deps (more id r s.callbacks) false (some r)
      over (inl (e, f)) = inl (e, Failed-more id r deps s.callbacks f)
      over (inr (e, c)) = inr (e, Cleared-more id r deps s.callbacks c)

  report-other :
      (j : Str) (o : Option (List Str))
      → str_eq id j ≡ false
      → TestAt s j o
      → TestAt (report group s id r) j o
  unfolding report
  report-other j none e h = h
  report-other j (some ds) e h =
      rw
        (
          sent,
          lookup-snoc_ne id r j s.callbacks e,
          try_send-room (size group) id r (s.chan j) (omega (arith, fits j)),
        )
        (At-more id r ds s.callbacks (s.chan j) (s.waiter j) (s.jobs j) (s.waiting j)
          (lookup j s.callbacks) h)

  report-Tests : Tests group (report group s id r)
  report-Tests j = elim (Bool-cases (str_eq id j)) [
    | inl e ↦
        subst (λ i. TestAt (report group s id r) i (lookup i group)) (eq_of_str_eq id j e)
          (rw listed report_self)
    | inr e ↦ report-other j (lookup j group) e (others j e)
  ]

  pub report-Inv : Inv group (report group s id r)
  unfolding report
  report-Inv = record {
    tests = report-Tests;
    fits = λ j.
        rw (try_send-room (size group) id r (s.chan j) (omega (arith, fits j)))
          (room j (s.waiting j));
    counted = rw sent (omega (arith, length-append s.callbacks ((id, r) ∷ [])));
  }
    where
      room :
          (j : Str) (b : Bool)
          → length (if b then more id r (s.chan j) else s.chan j) ≤ s.results + 1
      room j true = omega (arith, fits j, length-append (s.chan j) ((id, r) ∷ []))
      room j false = omega (arith, fits j)
