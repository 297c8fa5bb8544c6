-- ===== src/Runner/Phases.antt =====
-- The phases of tests in a state of the dependency runner where the invariant holds.
use test.Base.{
  ◌≡◌, ◌≢◌, inl, inr, refl, sym, subst, ◌∙◌, true, false, List, Option, none, some, Str, str_eq,
  str_eq_refl, eq_of_str_eq, lookup, Bool-cases, arith,
}
use test.Runner.{TestResult, Waiter, waits, aborting, gone, Group, State, skip, update, is_final}
use test.Runner.Invariant.{Cleared, Over, At, TestAt, Tests}
use test.Runner.Report.{Inv}

-- What holds of the state after an event, if the event can happen.
abbrev pub Then : (State → Type 0) → Option State → Type 0
Then P none = Unit
Then P (some t) = P t

module _ {ℓ} {V : Type ℓ} (f : Str → V) (k : Str) (v : V) where
  pub update_self : update f k v k ≡ v
  unfolding update
  update_self = rw (str_eq_refl k)

  pub update-ne : (j : Str) → str_eq k j ≡ false → update f k v j ≡ f j
  unfolding update
  update-ne j e = rw e

-- The phase of a test is read off the parts of the state that are its own, and the reports.
pub TestAt-same :
    (s t : State) (id : Str) (o : Option (List Str))
    → t.waiter id ≡ s.waiter id
    → t.jobs id ≡ s.jobs id
    → t.waiting id ≡ s.waiting id
    → t.chan id ≡ s.chan id
    → t.callbacks ≡ s.callbacks
    → TestAt s id o
    → TestAt t id o
TestAt-same s t id none w j q c r h = (w ∙ h.0, j ∙ h.1)
TestAt-same s t id (some deps) w j q c r h = rw (w, j, q, c, r) h

pub is_final-ne_skip : (r : TestResult) → is_final r ≡ true → r ≢ skip
unfolding is_final
is_final-ne_skip r h e = ground arith

module _ (group : Group) (s : State) (v : Inv group s) where
  -- A state that differs from `s` at one listed test only.
  pub splice :
      (t : State) (id : Str)
      → TestAt t id (lookup id group)
      → ((j : Str) (o : Option (List Str)) → str_eq id j ≡ false → TestAt s j o → TestAt t j o)
      → Tests group t
  splice t id here there j = elim (Bool-cases (str_eq id j)) [
    | inl e ↦ subst (λ i. TestAt t i (lookup i group)) (eq_of_str_eq id j e) here
    | inr e ↦ there j (lookup j group) e (v.tests j)
  ]

  -- What the invariant says of a listed test in a given phase.
  abbrev pub Listed : Str → (List Str → Type 0) → Type 0
  Listed id P = (deps : List Str) × (lookup id group ≡ some deps) × P deps

  pub phase :
      (id : Str) (w : Waiter)
      → s.waiter id ≡ w
      → w ≢ gone
      → Listed id λ deps.
        At deps s.callbacks (s.chan id) w (s.jobs id) (s.waiting id) (lookup id s.callbacks)
  phase id w e live = go (lookup id group) refl (v.tests id)
    where
      go :
          (o : Option (List Str))
          → lookup id group ≡ o
          → TestAt s id o
          → Listed id λ deps.
            At deps s.callbacks (s.chan id) w (s.jobs id) (s.waiting id) (lookup id s.callbacks)
      go none l h = absurd (live (sym e ∙ h.0))
      go (some deps) l h = (
        deps,
        l,
        subst
            (λ x.
              At deps s.callbacks (s.chan id) x (s.jobs id) (s.waiting id) (lookup id s.callbacks))
            e h,
      )

  pub job-phase :
      (id : Str)
      → s.jobs id ≡ true
      → Listed id λ deps.
        (s.waiter id ≡ gone)
        × (s.waiting id ≡ false)
        × (lookup id s.callbacks ≡ none)
        × Cleared deps s.callbacks
  job-phase id e = go (lookup id group) refl (v.tests id)
    where
      out :
          (deps : List Str) (w : Waiter)
          → At deps s.callbacks (s.chan id) w (s.jobs id) (s.waiting id) (lookup id s.callbacks)
          → (w ≡ gone)
            × (s.waiting id ≡ false)
            × (lookup id s.callbacks ≡ none)
            × Cleared deps s.callbacks
      out deps (waits ds) h = cc (sym e ∙ h.1)
      out deps aborting h = cc (sym e ∙ h.1)
      out deps gone h =
          let o : Over deps s.callbacks true (lookup id s.callbacks) = rw e at h.1 in
          (refl, h.0, o.0, o.1)

      go :
          (o : Option (List Str))
          → lookup id group ≡ o
          → TestAt s id o
          → Listed id λ deps.
            (s.waiter id ≡ gone)
            × (s.waiting id ≡ false)
            × (lookup id s.callbacks ≡ none)
            × Cleared deps s.callbacks
      go none l h = cc (sym e ∙ h.1)
      go (some deps) l h = (deps, l, out deps (s.waiter id) h)
