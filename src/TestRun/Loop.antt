-- ===== src/TestRun/Loop.antt =====
-- What one turn of the main loop of `Test.Run` can do to the test.
use test.Base.{
  ℕ, ◌≡◌, refl, ap, ◌∙◌, inl, inr, Bool, true, false, not, ◌&&◌, Bool-cases, Option-cases, Option,
  none, some, Str, codes, is_empty, if◌then◌else◌, arith,
}
use test.Grading.{Command, KeyMap, evaluate}
use test.TestRun.{
  Test, Turn, Flow, stop, add_status, fail_command, hear, begin, rotate, settle, after_evaluate,
  after_shutdown, answer, turn, is_timeout, is_other, went_down, is_expected,
}

-- The parts of a test that only an evaluated command changes.
pub record Frame (t t' : Test) : Type 0 where
  pub past : t'.past ≡ t.past
  pub next : t'.next ≡ t.next
  pub points : t'.points_earned ≡ t.points_earned
  pub method : t'.scoring_method ≡ t.scoring_method
  pub available : t'.points_available ≡ t.points_available
  pub input : t'.current.input ≡ t.current.input
  pub prompt : t'.current.has_prompt ≡ t.current.has_prompt
  pub panic : t'.current.panic ≡ t.current.panic
  pub times_out : t'.current.times_out ≡ t.current.times_out
  pub worth : t'.current.points_available ≡ t.current.points_available
  pub all : t'.all_correct ≡ true → t.all_correct ≡ true

begin-Frame : (t : Test) → Frame t (begin t)
unfolding begin
begin-Frame t = elim (Bool-cases (is_empty t.past)) [
  | inl h ↦ rw (h) record {
    past = refl;
    next = refl;
    points = refl;
    method = refl;
    available = refl;
    input = refl;
    prompt = refl;
    panic = refl;
    times_out = refl;
    worth = refl;
    all = λ e. e;
  }
  | inr h ↦ rw (h) record {
    past = refl;
    next = refl;
    points = refl;
    method = refl;
    available = refl;
    input = refl;
    prompt = refl;
    panic = refl;
    times_out = refl;
    worth = refl;
    all = λ e. e;
  }
]

hear-Frame : (u : Turn) (t t' : Test) → Frame t t' → Frame t (hear u t')
unfolding hear
hear-Frame u t t' f = record {
  past = f.past;
  next = f.next;
  points = f.points;
  method = f.method;
  available = f.available;
  input = f.input;
  prompt = f.prompt;
  panic = f.panic;
  times_out = f.times_out;
  worth = f.worth;
  all = f.all;
}

status-Frame : (s : Str) (t t' : Test) → Frame t t' → Frame t (add_status s t')
unfolding add_status
status-Frame s t t' f = record {
  past = f.past;
  next = f.next;
  points = f.points;
  method = f.method;
  available = f.available;
  input = f.input;
  prompt = f.prompt;
  panic = f.panic;
  times_out = f.times_out;
  worth = f.worth;
  all = f.all;
}

fail-Frame : (t t' : Test) → Frame t t' → Frame t (fail_command t')
unfolding fail_command
fail-Frame t t' f = record {
  past = f.past;
  next = f.next;
  points = f.points;
  method = f.method;
  available = f.available;
  input = f.input;
  prompt = f.prompt;
  panic = f.panic;
  times_out = f.times_out;
  worth = f.worth;
  all = λ e. cc e;
}

hear-prompt : (u : Turn) (t : Test) → (hear u t).current.has_prompt ≡ t.current.has_prompt
unfolding hear
hear-prompt u t = refl

add_status-current : (s : Str) (t : Test) → (add_status s t).current ≡ t.current
unfolding add_status
add_status-current s t = refl

not-true : (b : Bool) → not b ≡ true → b ≡ false
not-true b h = ground arith

not-false : (b : Bool) → not b ≡ false → b ≡ true
not-false b h = ground arith

module _ (key_map : KeyMap) (credit_points : ℕ → ℕ → ℕ → ℕ) where
  -- The ways a turn can go. In each, `t1` is the test with what the command's run added to it.
  pub data Goes (t : Test) : Option (Test × Flow) → Type 0 where
    panics :
        (down : Bool) (t1 : Test)
        → Frame t t1
        → evaluate key_map credit_points down t1.current ≡ none
        → Goes t none
    breaks : (failed : Bool) (t1 : Test) → Frame t t1 → Goes t (some (t1, stop failed))
    shuts_down :
        (cur : Command) (t1 : Test)
        → Frame t t1
        → t1.current.has_prompt ≡ false
        → evaluate key_map credit_points false t1.current ≡ some cur
        → Goes t (some (rotate cur t1.next t1, stop false))
    evaluates :
        (down : Bool) (cur : Command) (t1 : Test)
        → Frame t t1
        → t1.current.has_prompt ≡ true
        → evaluate key_map credit_points down t1.current ≡ some cur
        → Goes t (some (settle down cur (rotate cur t1.next t1)))

  after-Goes :
      (t t1 : Test) (down : Bool)
      → Frame t t1
      → t1.current.has_prompt ≡ true
      → Goes t (
          after_evaluate key_map credit_points down t1
            (evaluate key_map credit_points down t1.current))
  unfolding after_evaluate
  after-Goes t t1 down f h = elim (Option-cases (evaluate key_map credit_points down t1.current)) [
    | inl e ↦ rw e (panics down t1 f e)
    | inr (cur, e) ↦ rw e (evaluates down cur t1 f h e)
  ]

  shutdown-Goes :
      (t t1 t2 : Test)
      → Frame t t1
      → Frame t t2
      → t2.current ≡ t1.current
      → t1.current.has_prompt ≡ false
      → Goes t (
          after_shutdown key_map credit_points t2 (evaluate key_map credit_points false t1.current))
  unfolding after_shutdown
  shutdown-Goes t t1 t2 f g e h =
      elim (Option-cases (evaluate key_map credit_points false t1.current)) [
        | inl n ↦ rw n (panics false t1 f n)
        | inr (cur, n) ↦ rw n (
            shuts_down cur t2 g (ap (λ (c : Command). c.has_prompt) e ∙ h)
              (ap (evaluate key_map credit_points false) e ∙ n))
      ]

  if-Goes :
      (t : Test) {x y : Option (Test × Flow)} (b : Bool)
      → (b ≡ true → Goes t x)
      → (b ≡ false → Goes t y)
      → Goes t (if b then x else y)
  if-Goes t true g h = g refl
  if-Goes t false g h = h refl

  answer-Goes :
      (u : Turn) (t t1 : Test)
      → Frame t t1
      → t1.current.has_prompt ≡ true
      → Goes t (answer key_map credit_points u t1)
  unfolding answer
  answer-Goes u t t1 f h =
      let failed : Goes t (some (fail_command (add_status (codes "timeout") t1), stop false)) =
        breaks false _ (fail-Frame t _ (status-Frame _ t t1 f)) in
      if-Goes t (is_timeout u.reply) (λ a. failed)
        (λ a.
          if-Goes t (went_down u)
            (λ b.
              if-Goes t (is_expected u t1.current) (λ d. after-Goes t t1 true f h)
                (λ d. breaks false _ (fail-Frame t _ (status-Frame _ t t1 f))))
            (λ b.
              if-Goes t (is_other u.reply) (λ d. breaks true _ (status-Frame _ t t1 f))
                (λ d.
                  if-Goes t (not u.still_on) (λ g. breaks u.stats_error t1 f)
                    (λ g. after-Goes t t1 false f h))))

  pub turn-Goes : (u : Turn) (t : Test) → Goes t (turn key_map credit_points u t)
  unfolding turn
  turn-Goes u t =
      let t1 = begin t in
      let f = begin-Frame t in
      let g = hear-Frame u t t1 f in
      if-Goes t (not (is_empty t1.past) && not u.sent)
        (λ a. breaks false _ (status-Frame _ t _ (fail-Frame t t1 f)))
        (λ a.
          if-Goes t (not (is_empty t1.past) && (not u.stats_on && u.stats_failed))
            (λ b. breaks true t1 f)
            (λ b.
              if-Goes t (not t1.current.has_prompt)
                (λ d.
                  shutdown-Goes t (hear u t1) _ g (status-Frame (codes "shutdown") t _ g)
                    (add_status-current (codes "shutdown") (hear u t1))
                    (hear-prompt u t1 ∙ not-true _ d))
                (λ d. answer-Goes u t (hear u t1) g (hear-prompt u t1 ∙ not-false _ d))))
