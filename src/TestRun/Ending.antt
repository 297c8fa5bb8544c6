-- ===== src/TestRun/Ending.antt =====
-- The result and the points of a whole test.
use test.Base.{
  ℕ, ◌≡◌, ◌≢◌, refl, sym, ap, ◌∙◌, subst, ◌⊎◌, inl, inr, Bool, true, false, List, [], ◌∷◌, Option,
  some, Str, str_eq, str_eq_refl, All, All-append, Option-cases,
}
use test.Grading.{Command, CommandStatus, KeyMap}
use test.Grading.Final.{evaluate-Final}
use test.Runner.{TestResult}
use mathlib.Core.Option.{some-injective}
use test.TestRun.{
  Test, Turn, Flow, again, stop, rotate, turn, run_test, conclude, finish, result_of,
  scoring_entire, scoring_partial,
}
use test.TestRun.Loop.{Frame, Goes, panics, breaks, shuts_down, evaluates, turn-Goes}
use test.TestRun.Scoring.{Settled, settle-Settled, rotate-keeps, turn-Credited}

-- The command is correct, or it is the one that shuts down.
abbrev pub Passed : Command → Type 0
Passed c = (c.status ≡ CommandStatus.correct) ⊎ (c.has_prompt ≡ false)

-- What holds at the head of the loop. `t0` is the test at its start.
record Inv (t0 t : Test) : Type 0 where
  method : t.scoring_method ≡ t0.scoring_method
  available : t.points_available ≡ t0.points_available
  passed : t.all_correct ≡ true → All Passed t.past
  points : t0.scoring_method ≡ scoring_entire → t.points_earned ≡ t0.points_earned

rotate-past :
    (t : Test) (cur : Command) (cs : List Command)
    → All Passed t.past
    → Passed cur
    → All Passed (rotate cur cs t).past
unfolding rotate
rotate-past t cur [] v h = v
rotate-past t cur (c ∷ cs) v h = All-append Passed t.past (cur ∷ []) v (h, tt)

Frame-Inv : (t0 t t1 : Test) → Frame t t1 → Inv t0 t → Inv t0 t1
Frame-Inv t0 t t1 f v = record {
  method = f.method ∙ v.method;
  available = f.available ∙ v.available;
  passed = λ e. subst (All Passed) (sym f.past) (v.passed (f.all e));
  points = λ e. f.points ∙ v.points e;
}

methods-differ : str_eq scoring_entire scoring_partial ≡ false
unfolding str_eq
methods-differ = refl

two_methods : (s : Str) → s ≡ scoring_entire → s ≢ scoring_partial
two_methods s e p =
    cc (ap (str_eq scoring_entire) (sym e ∙ p), methods-differ, str_eq_refl scoring_entire)

-- A test's result, its points before the memory leaks, and its commands `past` agree. `t0` is the
-- test before it ran.
pub record Graded (t0 t : Test) : Type 0 where
  pub passed : t.result ≡ TestResult.correct → All Passed t.past
  pub all_points :
      t0.scoring_method ≡ scoring_entire
      → t.result ≡ TestResult.correct
      → t.points_earned ≡ t0.points_available
  pub no_points :
      t0.scoring_method ≡ scoring_entire
      → t.result ≢ TestResult.correct
      → t.points_earned ≡ t0.points_earned

finish-Graded :
    (t0 t : Test) (ok : Bool)
    → t.all_correct ≡ ok
    → Inv t0 t
    → Graded t0 (finish (record t { next = [] }))
unfolding finish result_of
finish-Graded t0 t true h v = rw h record {
  passed = λ e. v.passed h;
  all_points = λ m e. rw (v.method, m, str_eq_refl scoring_entire) v.available;
  no_points = λ m e. elim (e refl) [ ];
}
finish-Graded t0 t false h v =
    rw h record { passed = λ e. cc e; all_points = λ m e. cc e; no_points = λ m e. v.points m }

conclude-Graded : (t0 t : Test) (failed : Bool) → Inv t0 t → Graded t0 (conclude failed t)
unfolding conclude
conclude-Graded t0 t true v = record {
  passed = λ e. cc e;
  all_points = λ m e. cc e;
  no_points = λ m e. v.points m;
}
conclude-Graded t0 t false v = finish-Graded t0 t t.all_correct refl v

module _ (key_map : KeyMap) (credit_points : ℕ → ℕ → ℕ → ℕ) where
  settle-Inv :
      (t0 t1 : Test) (down : Bool) (cur : Command) (r : Test × Flow)
      → Inv t0 t1
      → ((cur.status ≡ CommandStatus.correct) ⊎ (cur.status ≡ CommandStatus.incorrect))
      → (t0.scoring_method ≡ scoring_entire → r.0.points_earned ≡ t0.points_earned)
      → Settled cur (rotate cur t1.next t1) r
      → Inv t0 r.0
  settle-Inv t0 t1 down cur r v final pts s =
      let keeps = rotate-keeps cur t1.next t1 in
      record {
        method = s.method ∙ (keeps.1 ∙ v.method);
        available = s.available ∙ (keeps.2 ∙ v.available);
        passed = λ e.
            let (all, right) = s.all e in
            let good : cur.status ≡ CommandStatus.correct = elim final [
              | inl y ↦ y
              | inr y ↦ elim (right y) [ ]
            ] in
            subst (All Passed) (sym s.past)
              (rotate-past t1 cur t1.next (v.passed (sym keeps.3 ∙ all)) (inl good));
        points = pts;
      }

  turn-Inv :
      (t0 t t' : Test) (u : Turn) (fl : Flow)
      → Inv t0 t
      → turn key_map credit_points u t ≡ some (t', fl)
      → Inv t0 t'
  turn-Inv t0 t t' u fl v h = go (turn-Goes key_map credit_points u t) h
    where
      pts : t0.scoring_method ≡ scoring_entire → t'.points_earned ≡ t0.points_earned
      pts m = elim (turn-Credited key_map credit_points u t t' fl h) [
        | inl e ↦ e ∙ v.points m
        | inr c ↦ elim (two_methods t.scoring_method (v.method ∙ m) c.partial) [ ]
      ]

      go :
          {r : Option (Test × Flow)}
          → Goes key_map credit_points t r
          → r ≡ some (t', fl)
          → Inv t0 t'
      go (panics down t1 f n) e = cc e
      go (breaks failed t1 f) e =
          subst (λ (r : Test × Flow). Inv t0 r.0) (some-injective _ _ e) (Frame-Inv t0 t t1 f v)
      go (shuts_down cur t1 f n q) e =
          let w = Frame-Inv t0 t t1 f v in
          let keeps = rotate-keeps cur t1.next t1 in
          let same = (evaluate-Final key_map credit_points false t1.current cur q).has_prompt in
          subst (λ (r : Test × Flow). Inv t0 r.0) (some-injective _ _ e)
            record {
              method = keeps.1 ∙ w.method;
              available = keeps.2 ∙ w.available;
              passed =
                  λ a. rotate-past t1 cur t1.next (w.passed (sym keeps.3 ∙ a)) (inr (same ∙ n));
              points = λ m. keeps.0 ∙ w.points m;
            }
      go (evaluates down cur t1 f n q) e =
          let final = evaluate-Final key_map credit_points down t1.current cur q in
          settle-Inv t0 t1 down cur (t', fl) (Frame-Inv t0 t t1 f v) final.status pts
            (subst (Settled cur (rotate cur t1.next t1)) (some-injective _ _ e)
              (settle-Settled down cur (rotate cur t1.next t1)))

  run-Inv :
      (us : List Turn) (t0 t t' : Test)
      → Inv t0 t
      → run_test key_map credit_points us t ≡ some t'
      → Graded t0 t'
  unfolding run_test
  run-Inv [] t0 t t' v h = cc h
  run-Inv (u ∷ us) t0 t t' v h = elim (Option-cases (turn key_map credit_points u t)) [
    | inl n ↦ cc (rw (n, run_test) at h)
    | inr ((t2, again), q) ↦
        run-Inv us t0 t2 t' (turn-Inv t0 t t2 u again v q) (rw (q, run_test) at h)
    | inr ((t2, stop failed), q) ↦
        subst (Graded t0) (some-injective _ _ (rw (q, run_test) at h))
          (conclude-Graded t0 t2 failed (turn-Inv t0 t t2 u (stop failed) v q))
  ]

  -- When a test is over, its result is correct only if each command before the last one reached is
  -- correct or is the one that shuts down; and with entire scoring the test has all of its points if
  -- its result is correct, and otherwise the points it started with. This is before the deduction for
  -- memory leaks.
  pub run_test-Graded :
      (us : List Turn) (t t' : Test)
      → t.past ≡ []
      → run_test key_map credit_points us t ≡ some t'
      → Graded t t'
  run_test-Graded us t t' e h =
      run-Inv us t t t'
        (record {
          method = refl;
          available = refl;
          points = λ m. refl;
          passed = λ a. subst (All Passed) (sym e) tt;
        })
        h
