-- ===== src/Runner/Samples.antt =====
-- A group of three tests on the dependency runner, and the runner's theorems on it.
use test.Base.{
  ℕ, ◌≤◌, ◌≡◌, ◌≢◌, ◌⊎◌, refl, List, [], ◌∷◌, ◌++◌, Option, none, some, Str, codes, str_eq, has,
  del, has_key, Dict, lookup, arith, if◌then◌else◌, length,
}
use test.Runner.{
  TestResult, is_correct, Group, State, skip, size, correct, incorrect, start, step, run, Event,
  message, ready, aborted, result, Reach, begin, report,
}
use test.Runner.Invariant.{Cleared, Failed}
use test.Runner.Count.{Unique}
use test.Runner.Safety.{ready-Cleared, ended-Over}
use test.Runner.Delivery.{report-delivers}
use test.Runner.Progress.{IsAcyclic, All-IsAcyclic}
use test.Runner.Ending.{run-length, run-Reach, acyclic-completes}

abbrev boot : Str
boot = codes "boot.t"

abbrev lock : Str
lock = codes "lt1.t"

abbrev cv : Str
cv = codes "cvt1.t"

-- boot.t, lt1.t behind it, and cvt1.t behind both.
abbrev three : Group
three = (boot, []) ∷ (lock, boot ∷ []) ∷ (cv, boot ∷ lock ∷ []) ∷ []

abbrev schedule : List Event
schedule =
    ready boot
    ∷ result boot correct
    ∷ message lock
    ∷ ready lock
    ∷ message cv
    ∷ result lock incorrect
    ∷ message cv
    ∷ aborted cv
    ∷ []

program : Unit {0}
unfolding run step start has_key lookup has str_eq del is_correct
program = tt

abbrev reports_of : Option State → Dict TestResult
reports_of none = []
reports_of (some s) = s.callbacks

schedule_reports :
    reports_of (run three (start three) schedule)
    ≡ (boot, correct) ∷ (lock, incorrect) ∷ (cv, skip) ∷ []
unfolding program
schedule_reports = refl

abbrev state_of : Option State → State
state_of none = start three
state_of (some s) = s

-- The state after so many events of the schedule.
abbrev after : List Event → State
after es = state_of (run three (start three) es)

three-Unique : Unique three
unfolding has_key str_eq
three-Unique = (refl, (refl, (refl, tt)))

-- After boot.t was correct, lt1.t may start.
before_ready : State
before_ready = after (ready boot ∷ result boot correct ∷ message lock ∷ [])

before_ready-Reach : Reach three before_ready
unfolding program before_ready
before_ready-Reach =
    run-Reach three (ready boot ∷ result boot correct ∷ message lock ∷ []) before_ready begin refl

ready-Cleared_example :
    (deps : List Str) × (lookup lock three ≡ some deps) × Cleared deps before_ready.callbacks
unfolding program before_ready
ready-Cleared_example =
    ready-Cleared three before_ready-Reach lock
      (after (ready boot ∷ result boot correct ∷ message lock ∷ ready lock ∷ [])) refl

failing : List Event
failing =
    ready boot
    ∷ result boot correct
    ∷ message lock
    ∷ ready lock
    ∷ message cv
    ∷ result lock incorrect
    ∷ message cv
    ∷ []

before_abort : State
unfolding failing
before_abort = after failing

before_abort-Reach : Reach three before_abort
unfolding program before_abort
before_abort-Reach = run-Reach three failing before_abort begin refl

ended-Over_example :
    (x : TestResult) × (lookup cv (after schedule).callbacks ≡ some x)
    × (((x ≡ skip) × Failed (boot ∷ lock ∷ []) (after schedule).callbacks)
        ⊎ ((x ≢ skip) × Cleared (boot ∷ lock ∷ []) (after schedule).callbacks))
unfolding program
ended-Over_example =
    ended-Over three three-Unique (run-Reach three schedule (after schedule) begin refl) refl cv
      (boot ∷ lock ∷ []) refl

report-delivers_example :
    ((report three before_ready lock correct).callbacks
      ≡ before_ready.callbacks ++ (lock, correct) ∷ [])
    × ((j : Str)
        → (report three before_ready lock correct).chan j ≡ (
            if before_ready.waiting j
            then before_ready.chan j ++ (lock, correct) ∷ []
            else before_ready.chan j))
unfolding program before_ready
report-delivers_example = report-delivers three before_ready-Reach lock correct (omega arith)

-- The rank of a test is its place in the file order.
place : Str → ℕ
place id = if str_eq id cv then 2 else if str_eq id lock then 1 else 0

three-IsAcyclic : IsAcyclic three place
unfolding program place
three-IsAcyclic =
    All-IsAcyclic three place
      (tt, (((refl, omega arith), tt), (((refl, omega arith), ((refl, omega arith), tt)), tt)))

acyclic-completes_example :
    (es : List Event) × (t : State) × (run three before_ready es ≡ some t)
    × (t.results ≡ size three)
acyclic-completes_example =
    acyclic-completes three place three-IsAcyclic three-Unique before_ready-Reach

run-length_example : length schedule ≤ 15
unfolding program
run-length_example = run-length three schedule (after schedule) refl
