-- ===== src/TestRun/Scoring.antt =====
-- What a turn of the loop does to the test's points and to `allCorrect`.
use test.Base.{
  add64, ℕ, ◌+◌, ◌%◌, ◌^◌, ◌≡◌, ◌≢◌, refl, sym, ap, ◌∙◌, subst, ◌⊎◌, inl, inr, Bool, true, false,
  not, ◌||◌, Bool-cases, List, [], ◌∷◌, Option, some, Str, codes, str_eq, if◌then◌else◌, arith,
  str_eq_iff,
}
use test.Grading.{Command, CommandStatus, KeyMap, evaluate, opt_no}
use test.Grading.Final.{evaluate-Final}
use mathlib.Core.Option.{some-injective}
use test.TestRun.{
  Test, Turn, Flow, stop, add_status, is_incorrect, rotate, settle, turn, scoring_entire,
  scoring_partial,
}
use test.TestRun.Loop.{Goes, panics, breaks, shuts_down, evaluates, turn-Goes}

-- The command's points count: it is correct, the test has partial scoring, and neither a panic nor a
-- time-out is allowed.
pub record Counts (cur : Command) (t : Test) : Type 0 where
  pub partial : t.scoring_method ≡ scoring_partial
  pub right : cur.status ≢ CommandStatus.incorrect
  pub no_panic : cur.panic ≡ opt_no
  pub in_time : cur.times_out ≡ opt_no

-- The test and the flow `r` after `cur` was settled on `t`.
pub record Settled (cur : Command) (t : Test) (r : Test × Flow) : Type 0 where
  pub past : r.0.past ≡ t.past
  pub current : r.0.current ≡ t.current
  pub next : r.0.next ≡ t.next
  pub method : r.0.scoring_method ≡ t.scoring_method
  pub available : r.0.points_available ≡ t.points_available
  pub all : r.0.all_correct ≡ true → (t.all_correct ≡ true) × (cur.status ≢ CommandStatus.incorrect)
  pub points :
      (r.0.points_earned ≡ t.points_earned)
      ⊎ (Counts cur t × (r.0.points_earned ≡ (t.points_earned + cur.points_earned) % 2 ^ 64))

right-lem : (s : CommandStatus) → is_incorrect s ≡ false → s ≢ CommandStatus.incorrect
unfolding is_incorrect
right-lem s h e = cc (subst (λ x. is_incorrect x ≡ false) e h)

if-Settled :
    (cur : Command) (t : Test) {x y : Test × Flow} (b : Bool)
    → (b ≡ true → Settled cur t x)
    → (b ≡ false → Settled cur t y)
    → Settled cur t (if b then x else y)
if-Settled cur t true g h = g refl
if-Settled cur t false g h = h refl

-- Statuses and `allCorrect` do not matter for the rest.
stays :
    (cur : Command) (t : Test) (statuses : List Str) (ok : Bool) (fl : Flow)
    → (ok ≡ true → (t.all_correct ≡ true) × (cur.status ≢ CommandStatus.incorrect))
    → Settled cur t (record t { statuses = statuses; all_correct = ok }, fl)
stays cur t statuses ok fl h = record {
  past = refl;
  current = refl;
  next = refl;
  method = refl;
  available = refl;
  all = h;
  points = inl refl;
}

maybe-status :
    (cur : Command) (t : Test) (b : Bool) (ok : Bool) (s : Str)
    → (ok ≡ true → (t.all_correct ≡ true) × (cur.status ≢ CommandStatus.incorrect))
    → let t' = record t { all_correct = ok } in
      Settled cur t (if b then add_status s t' else t', stop false)
unfolding add_status
maybe-status cur t true ok s h = stays cur t _ ok _ h
maybe-status cur t false ok s h = stays cur t _ ok _ h

settle-wrong :
    (down : Bool) (cur : Command) (t : Test)
    → is_incorrect cur.status ≡ true
    → Settled cur t (settle down cur t)
unfolding settle add_status
settle-wrong down cur t h = rw h (
    let no : false ≡ true → (t.all_correct ≡ true) × (cur.status ≢ CommandStatus.incorrect) =
      (λ e. cc e) in
    if-Settled cur t (down || (not (str_eq cur.panic opt_no) || not (str_eq cur.times_out opt_no)))
      (λ a.
        maybe-status cur t (not (str_eq cur.panic opt_no) || not (str_eq cur.times_out opt_no))
          false (codes "shutdown") no)
      (λ a.
        if-Settled cur t (str_eq t.scoring_method scoring_entire) (λ b. stays cur t _ false _ no)
          (λ b. stays cur t _ false _ no)))

settle-right :
    (down : Bool) (cur : Command) (t : Test)
    → is_incorrect cur.status ≡ false
    → Settled cur t (settle down cur t)
unfolding settle add_status add64
settle-right down cur t h = rw h (
    let ok : t.all_correct ≡ true
        → (t.all_correct ≡ true) × (cur.status ≢ CommandStatus.incorrect) =
      (λ e. (e, right-lem cur.status h)) in
    if-Settled cur t (down || (not (str_eq cur.panic opt_no) || not (str_eq cur.times_out opt_no)))
      (λ a.
        maybe-status cur t (not (str_eq cur.panic opt_no) || not (str_eq cur.times_out opt_no))
          t.all_correct (codes "shutdown") ok)
      (λ a.
        if-Settled cur t (str_eq t.scoring_method scoring_partial)
          (λ b. record {
            past = refl;
            current = refl;
            next = refl;
            method = refl;
            available = refl;
            all = ok;
            points = inr (
              record {
                partial = (str_eq_iff t.scoring_method scoring_partial).0 b;
                right = right-lem cur.status h;
                no_panic = ground (arith, str_eq_iff cur.panic opt_no);
                in_time = ground (arith, str_eq_iff cur.times_out opt_no);
              },
              refl,
            );
          })
          (λ b. stays cur t _ t.all_correct _ ok)))

pub settle-Settled : (down : Bool) (cur : Command) (t : Test) → Settled cur t (settle down cur t)
settle-Settled down cur t = elim (Bool-cases (is_incorrect cur.status)) [
  | inl h ↦ settle-wrong down cur t h
  | inr h ↦ settle-right down cur t h
]

-- Moving on to the next command keeps all but the commands.
pub rotate-keeps :
    (cur : Command) (cs : List Command) (t : Test)
    → ((rotate cur cs t).points_earned ≡ t.points_earned)
      × ((rotate cur cs t).scoring_method ≡ t.scoring_method)
      × ((rotate cur cs t).points_available ≡ t.points_available)
      × ((rotate cur cs t).all_correct ≡ t.all_correct)
unfolding rotate
rotate-keeps cur [] t = (refl, refl, refl, refl)
rotate-keeps cur (c ∷ cs) t = (refl, refl, refl, refl)

module _ (key_map : KeyMap) (credit_points : ℕ → ℕ → ℕ → ℕ) where
  -- The command of this turn earned the points that the turn added.
  pub record Credited (t t' : Test) : Type 0 where
    pub down : Bool
    pub ran : Command
    pub cur : Command
    pub evaluated : evaluate key_map credit_points down ran ≡ some cur
    pub same_input : ran.input ≡ t.current.input
    pub worth : ran.points_available ≡ t.current.points_available
    pub partial : t.scoring_method ≡ scoring_partial
    pub right : cur.status ≡ CommandStatus.correct
    pub no_panic : t.current.panic ≡ opt_no
    pub in_time : t.current.times_out ≡ opt_no
    pub earned : t'.points_earned ≡ (t.points_earned + cur.points_earned) % 2 ^ 64

  pub turn-Credited :
      (u : Turn) (t t' : Test) (fl : Flow)
      → turn key_map credit_points u t ≡ some (t', fl)
      → (t'.points_earned ≡ t.points_earned) ⊎ Credited t t'
  turn-Credited u t t' fl h = go (turn-Goes key_map credit_points u t) h
    where
      go :
          {r : Option (Test × Flow)}
          → Goes key_map credit_points t r
          → r ≡ some (t', fl)
          → (t'.points_earned ≡ t.points_earned) ⊎ Credited t t'
      go (panics down t1 f n) e = cc e
      go (breaks failed t1 f) e = inl (
          subst (λ (r : Test × Flow). r.0.points_earned ≡ t.points_earned) (some-injective _ _ e)
            f.points)
      go (shuts_down cur t1 f n q) e = inl (
          subst (λ (r : Test × Flow). r.0.points_earned ≡ t.points_earned) (some-injective _ _ e)
            ((rotate-keeps cur t1.next t1).0 ∙ f.points))
      go (evaluates down cur t1 f n q) e =
          let s =
            subst (Settled cur (rotate cur t1.next t1)) (some-injective _ _ e)
              (settle-Settled down cur (rotate cur t1.next t1)) in
          let keeps = rotate-keeps cur t1.next t1 in
          let final = evaluate-Final key_map credit_points down t1.current cur q in
          elim (s.points) [
            | inl p ↦ inl (p ∙ (keeps.0 ∙ f.points))
            | inr (c, p) ↦ inr record {
              down = down;
              ran = t1.current;
              cur = cur;
              evaluated = q;
              same_input = f.input;
              worth = f.worth;
              partial = sym f.method ∙ (sym keeps.1 ∙ c.partial);
              right = elim (final.status) [ inl y ↦ y | inr y ↦ elim (c.right y) [ ] ];
              no_panic = sym f.panic ∙ (sym final.panic ∙ c.no_panic);
              in_time = sym f.times_out ∙ (sym final.times_out ∙ c.in_time);
              earned = p ∙ ap (λ x. (x + cur.points_earned) % 2 ^ 64) (keeps.0 ∙ f.points);
            }
          ]
