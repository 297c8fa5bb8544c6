-- ===== src/TestRun.antt =====
-- run.go: the main loop of `Test.Run`, from the boot command to the result of the test.
pub mod Leaks
pub mod Loop
pub mod Scoring
pub mod Ending
pub mod Ends
mod Samples
use test.Base.{
  add64, ℕ, ◌+◌, ◌-◌, ◌≡◌, Bool, true, false, not, ◌&&◌, ◌||◌, List, [], ◌∷◌, ◌++◌, Option, none,
  some, Str, codes, str_eq, is_empty, ◌==◌, if◌then◌else◌,
}
use test.Runner.{TestResult}
use test.Grading.{OutputLine, Command, CommandStatus, KeyMap, opt_no, evaluate}

abbrev pub scoring_entire : Str
scoring_entire = codes "entire"

abbrev pub scoring_partial : Str
scoring_partial = codes "partial"

-- `past`, `current` and `next` are `t.Commands` around `t.commandCounter`. A status is its kind.
pub record Test : Type 0 where
  pub past : List Command
  pub current : Command
  pub next : List Command
  pub all_correct : Bool
  pub statuses : List Str
  pub result : TestResult
  pub scoring_method : Str
  pub points_available : ℕ
  pub points_earned : ℕ
  pub mem_leak_points : ℕ
  pub mem_leak_deducted : ℕ
  pub mem_leak_checked : Bool

-- The error that `ExpectRegexp` returns.
pub data ExpectError : Type 0 where
  no_error timeout eof other : ExpectError

-- What sys161, the monitor and the stats connection do while one command runs. `groups` is the
-- number of groups in the match, `monitor_error` that the stats stopped for the monitor.
pub record Turn : Type 0 where
  pub sent : Bool
  pub stats_on : Bool
  pub stats_failed : Bool
  pub lines : List OutputLine
  pub timed_out : Bool
  pub reply : ExpectError
  pub groups : ℕ
  pub monitor_error : Bool
  pub still_on : Bool
  pub stats_error : Bool

-- How the loop goes on: with the next command, or it breaks, with or without an error.
pub data Flow : Type 0 where
  again : Flow
  stop : (failed : Bool) → Flow

unfoldable pub add_status : Str → Test → Test
add_status kind t = record t { statuses = t.statuses ++ kind ∷ [] }

-- The command failed, and the test with it.
unfoldable pub fail_command : Test → Test
fail_command t = record t {
  current = record (t.current) { status = CommandStatus.incorrect; points_earned = 0 };
  all_correct = false;
}

unfoldable pub is_incorrect : CommandStatus → Bool
is_incorrect CommandStatus.incorrect = true
is_incorrect _ = false

-- The output and the time-out flag that a command gets while it runs.
unfoldable pub hear : Turn → Test → Test
hear u t = record t {
  current = record (t.current) { output = t.current.output ++ u.lines; timed_out = u.timed_out };
}

-- Panics and time-outs that the command's options allow.
unfoldable pub is_expected : Turn → Command → Bool
is_expected u c =
    (not u.monitor_error && not (str_eq c.panic opt_no))
    || (not (str_eq c.times_out opt_no) && c.timed_out)

unfoldable pub is_timeout : ExpectError → Bool
is_timeout timeout = true
is_timeout _ = false

unfoldable pub is_eof : ExpectError → Bool
is_eof eof = true
is_eof _ = false

unfoldable pub is_other : ExpectError → Bool
is_other other = true
is_other _ = false

-- The reply shows that sys161 went down.
unfoldable pub went_down : Turn → Bool
unfolding is_eof
went_down u = is_eof u.reply || (u.groups == 0 || u.monitor_error)

-- The next command becomes the current one, but not behind the last one.
unfoldable pub rotate : Command → List Command → Test → Test
rotate cur [] t = record t { current = cur }
rotate cur (c ∷ cs) t = record t { past = t.past ++ cur ∷ []; current = c; next = cs }

-- Points and flow after the command `cur` was evaluated. `down`: sys161 went down.
unfoldable pub settle : Bool → Command → Test → Test × Flow
unfolding is_incorrect add_status add64
settle down cur t =
    let t' = if is_incorrect cur.status then record t { all_correct = false } else t in
    if down || (not (str_eq cur.panic opt_no) || not (str_eq cur.times_out opt_no))
    then (
      if not (str_eq cur.panic opt_no) || not (str_eq cur.times_out opt_no)
          then add_status (codes "shutdown") t'
          else t',
      stop false,
    )
    else if is_incorrect cur.status
    then (if str_eq t.scoring_method scoring_entire
        then (add_status (codes "shutdown") t', stop false)
        else (t', again))
    else (if str_eq t.scoring_method scoring_partial
        then (record t' { points_earned = add64 t.points_earned cur.points_earned }, again)
        else (t', again))

-- The command is sent, unless it is the first one, which boots sys161.
unfoldable pub begin : Test → Test
begin t =
    if is_empty t.past
    then t
    else record t { current = record (t.current) { status = CommandStatus.running } }

unfoldable pub result_of : Bool → TestResult
result_of true = TestResult.correct
result_of false = TestResult.incorrect

-- `finishAndEvaluate` up to the memory leaks.
unfoldable pub finish : Test → Test
unfolding result_of
finish t = record t {
  result = result_of t.all_correct;
  points_earned =
      if t.all_correct && str_eq t.scoring_method scoring_entire
      then t.points_available
      else t.points_earned;
}

unfoldable pub conclude : Bool → Test → Test
unfolding finish
conclude true t = record t { next = []; result = TestResult.abort }
conclude false t = finish (record t { next = [] })

module _ (key_map : KeyMap) (credit_points : ℕ → ℕ → ℕ → ℕ) where
  -- `finishCurCommand` and the end of the loop's body, with the command that was evaluated.
  unfoldable pub after_evaluate : Bool → Test → Option Command → Option (Test × Flow)
  unfolding rotate settle
  after_evaluate down t none = none
  after_evaluate down t (some cur) = some (settle down cur (rotate cur t.next t))

  -- The shutdown command is evaluated too, but the loop does not look at the outcome.
  unfoldable pub after_shutdown : Test → Option Command → Option (Test × Flow)
  unfolding rotate
  after_shutdown t none = none
  after_shutdown t (some cur) = some (rotate cur t.next t, stop false)

  -- The loop's body from the reply to the prompt on.
  unfoldable pub answer : Turn → Test → Option (Test × Flow)
  unfolding add_status fail_command is_timeout went_down is_expected is_other after_evaluate
      evaluate
  answer u t =
      if is_timeout u.reply
      then some (fail_command (add_status (codes "timeout") t), stop false)
      else if went_down u
      then (if is_expected u t.current
          then after_evaluate true t (evaluate key_map credit_points true t.current)
          else some (fail_command (add_status (codes "shutdown") t), stop false))
      else if is_other u.reply
      then some (add_status (codes "expect") t, stop true)
      else if not u.still_on
      then some (t, stop u.stats_error)
      else after_evaluate false t (evaluate key_map credit_points false t.current)

  -- The loop's body. `none`: a panic.
  unfoldable pub turn : Turn → Test → Option (Test × Flow)
  unfolding begin hear add_status fail_command after_shutdown answer evaluate
  turn u t0 =
      let t = begin t0 in
      if not (is_empty t.past) && not u.sent
      then some (add_status (codes "timeout") (fail_command t), stop false)
      else if not (is_empty t.past) && (not u.stats_on && u.stats_failed)
      then some (t, stop true)
      else if not t.current.has_prompt
      then after_shutdown (add_status (codes "shutdown") (hear u t))
          (evaluate key_map credit_points false (hear u t).current)
      else answer u (hear u t)

  -- The loop, and what comes after it but for the memory leaks. `none`: a panic, or more turns to come.
  unfoldable pub run_test : List Turn → Test → Option Test
  unfolding turn conclude
  run_test [] t = none
  run_test (u ∷ us) t = elim (turn u t) [
    | none ↦ none
    | some (t', again) ↦ run_test us t'
    | some (t', stop failed) ↦ some (conclude failed t')
  ]
