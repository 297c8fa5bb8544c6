-- ===== src/TestRun/Ends.antt =====
-- The main loop of `Test.Run` ends.
use test.Base.{
  ℕ, ◌<◌, suc, ◌≡◌, refl, sym, ap, ◌∙◌, subst, Bool, true, false, List, [], ◌∷◌, Option, some, Str,
  All, length, arith,
}
use test.Grading.{Command, KeyMap, command_id}
use test.Grading.Final.{evaluate-none}
use test.TestRun.{Test, Turn, Flow, again, stop, rotate, settle, turn, run_test, conclude}
use test.TestRun.Loop.{Frame, Goes, panics, breaks, shuts_down, evaluates, turn-Goes}
use test.TestRun.Scoring.{Settled, settle-Settled}

-- The last command is the one that shuts down.
abbrev pub ShutsDown : Command → List Command → Type 0
ShutsDown c [] = c.has_prompt ≡ false
ShutsDown c (d ∷ ds) = ShutsDown d ds

abbrev pub HasId : Command → Type 0
HasId c = (id : Str) × (command_id c.input ≡ some id)

-- The commands from the current one on.
record Ready (t : Test) : Type 0 where
  ids : All HasId (t.current ∷ t.next)
  down : ShutsDown t.current t.next

ready :
    (t : Test) (c : Command) (cs : List Command)
    → t.current ≡ c
    → t.next ≡ cs
    → All HasId (c ∷ cs)
    → ShutsDown c cs
    → Ready t
ready t c cs e f ids d = record {
  ids = subst (λ x. All HasId (x ∷ t.next)) (sym e) (subst (λ x. All HasId (c ∷ x)) (sym f) ids);
  down = subst (λ x. ShutsDown x t.next) (sym e) (subst (λ x. ShutsDown c x) (sym f) d);
}

rotate-moves :
    (cur : Command) (c : Command) (cs : List Command) (t : Test)
    → ((rotate cur (c ∷ cs) t).current ≡ c) × ((rotate cur (c ∷ cs) t).next ≡ cs)
unfolding rotate
rotate-moves cur c cs t = (refl, refl)

module _ (key_map : KeyMap) (credit_points : ℕ → ℕ → ℕ → ℕ) where
  run-stop :
      (u : Turn) (us : List Turn) (t t' : Test) (failed : Bool)
      → turn key_map credit_points u t ≡ some (t', stop failed)
      → run_test key_map credit_points (u ∷ us) t ≡ some (conclude failed t')
  unfolding run_test
  run-stop u us t t' failed e = rw (e, run_test) refl

  run-again :
      (u : Turn) (us : List Turn) (t t' : Test)
      → turn key_map credit_points u t ≡ some (t', again)
      → run_test key_map credit_points (u ∷ us) t ≡ run_test key_map credit_points us t'
  unfolding run_test
  run-again u us t t' e = rw (e, run_test) refl

  -- The next command has taken the place of the current one, which was not the last one.
  advance :
      (cur : Command) (t t1 : Test) (r : Test × Flow)
      → Ready t
      → Frame t t1
      → t1.current.has_prompt ≡ true
      → Settled cur (rotate cur t1.next t1) r
      → Ready r.0 × (suc (length r.0.next) ≡ length t.next)
  advance cur t t1 r v f h s = go t.next refl v.ids.1 v.down
    where
      go :
          (cs : List Command)
          → t.next ≡ cs
          → All HasId cs
          → ShutsDown t.current cs
          → Ready r.0 × (suc (length r.0.next) ≡ length t.next)
      go [] e ids d = cc (f.prompt ∙ d, h)
      go (c ∷ cs) e ids d =
          let n1 = f.next ∙ e in
          let (cur1, next1) = rotate-moves cur c cs t1 in
          let cur2 : r.0.current ≡ c =
            s.current ∙ (ap (λ x. (rotate cur x t1).current) n1 ∙ cur1) in
          let next2 : r.0.next ≡ cs = s.next ∙ (ap (λ x. (rotate cur x t1).next) n1 ∙ next1) in
          (
            ready r.0 c cs cur2 next2 ids d,
            ap (λ (x : List Command). suc (length x)) next2
                ∙ sym (ap (λ (x : List Command). length x) e),
          )

  abbrev Over : List Turn → Test → Type 0
  Over us t = (t' : Test) × (run_test key_map credit_points us t ≡ some t')

  -- One turn, and then the rest of them as `later` says.
  turn-Over :
      (u : Turn) (us : List Turn) (t : Test)
      → Ready t
      → ((t2 : Test) → Ready t2 → suc (length t2.next) ≡ length t.next → Over us t2)
      → Over (u ∷ us) t
  turn-Over u us t v later = go (turn-Goes key_map credit_points u t) refl
    where
      on :
          (t2 : Test) (fl : Flow)
          → (Ready t2 × (suc (length t2.next) ≡ length t.next))
          → turn key_map credit_points u t ≡ some (t2, fl)
          → Over (u ∷ us) t
      on t2 (stop failed) w e = (conclude failed t2, run-stop u us t t2 failed e)
      on t2 again w e = let (t', p) = later t2 w.0 w.1 in (t', run-again u us t t2 e ∙ p)

      go :
          {r : Option (Test × Flow)}
          → Goes key_map credit_points t r
          → turn key_map credit_points u t ≡ r
          → Over (u ∷ us) t
      go (panics down t1 f n) e =
          let (id, q) = v.ids.0 in
          cc (evaluate-none key_map credit_points down t1.current n, ap command_id f.input, q)
      go (breaks failed t1 f) e = (conclude failed t1, run-stop u us t t1 failed e)
      go (shuts_down cur t1 f n q) e =
          (conclude false (rotate cur t1.next t1), run-stop u us t _ false e)
      go (evaluates down cur t1 f n q) e =
          let s = settle-Settled down cur (rotate cur t1.next t1) in
          let r = settle down cur (rotate cur t1.next t1) in
          on r.0 r.1 (advance cur t t1 r v f n s) e

  loop-ends : (us : List Turn) (t : Test) → Ready t → length t.next < length us → Over us t
  loop-ends [] t v lt = ground arith
  loop-ends (u ∷ us) t v lt =
      turn-Over u us t v (λ t2 w e. loop-ends us t2 w (omega (arith, e, lt)))

  -- The loop ends with a result after at most one turn for each command, if the last command is the
  -- one that shuts sys161 down and every command line has a command.
  pub run_test-total :
      (us : List Turn) (t : Test)
      → All HasId (t.current ∷ t.next)
      → ShutsDown t.current t.next
      → length t.next < length us
      → (t' : Test) × (run_test key_map credit_points us t ≡ some t')
  run_test-total us t ids d lt = loop-ends us t record { ids = ids; down = d } lt
