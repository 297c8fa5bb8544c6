-- ===== src/Runner/Invariant.antt =====
-- What holds of one test in every state of the dependency runner.
use test.Base.{◌≡◌, ◌≢◌, ◌⊎◌, Bool, true, false, List, Option, none, some, Str, has, Dict, lookup}
use test.Runner.{TestResult, Waiter, waits, aborting, gone, Group, State, correct, skip}

-- Each dependency was reported correct.
abbrev pub Cleared : List Str → Dict TestResult → Type 0
Cleared deps reports = (d : Str) → has d deps ≡ true → lookup d reports ≡ some correct

-- Some dependency was reported with another result.
abbrev pub Failed : List Str → Dict TestResult → Type 0
Failed deps reports =
    (d : Str) × (r : TestResult) × (has d deps ≡ true) × (lookup d reports ≡ some r) × (r ≢ correct)

-- The goroutine waits for `left`: the rest is reported correct, and for each dependency that is
-- left the channel holds the report, if there is one.
pub record Waits (deps : List Str) (reports chan : Dict TestResult) (left : List Str) : Type 0 where
  pub among : (d : Str) → has d left ≡ true → has d deps ≡ true
  pub cleared : (d : Str) → has d deps ≡ true → has d left ≡ false → lookup d reports ≡ some correct
  pub in_sync : (d : Str) → has d left ≡ true → lookup d chan ≡ lookup d reports

-- After the goroutine has returned: by whether the manager has the job, and the report.
abbrev pub Over : List Str → Dict TestResult → Bool → Option TestResult → Type 0
Over deps reports true o = (o ≡ none) × Cleared deps reports
Over deps reports false none = ⊥
Over deps reports false (some r) =
    ((r ≡ skip) × Failed deps reports) ⊎ ((r ≢ skip) × Cleared deps reports)

-- The phases of a test with these dependencies.
abbrev pub At :
    List Str → Dict TestResult → Dict TestResult → Waiter → Bool → Bool → Option TestResult → Type 0
At deps reports chan (waits left) job waiting o =
    Waits deps reports chan left × (job ≡ false) × (waiting ≡ true) × (o ≡ none)
At deps reports chan aborting job waiting o =
    Failed deps reports × (job ≡ false) × (waiting ≡ true) × (o ≡ none)
At deps reports chan gone job waiting o = (waiting ≡ false) × Over deps reports job o

abbrev pub TestAt : State → Str → Option (List Str) → Type 0
TestAt s id none = (s.waiter id ≡ gone) × (s.jobs id ≡ false)
TestAt s id (some deps) =
    At deps s.callbacks (s.chan id) (s.waiter id) (s.jobs id) (s.waiting id) (lookup id s.callbacks)

abbrev pub Tests : Group → State → Type 0
Tests group s = (id : Str) → TestAt s id (lookup id group)
