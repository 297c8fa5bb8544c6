-- ===== src/Runner.antt =====
-- runners.go: the dependency runner, as events of its goroutines on a shared state.
pub mod Preserve
pub mod Report
pub mod Phases
pub mod Steps
pub mod Count
pub mod Safety
pub mod Delivery
pub mod Progress
pub mod Measure
pub mod Ending
mod Samples
pub mod Invariant
use test.Base.{
  ℕ, suc, ◌+◌, Bool, true, false, ◌&&◌, ◌||◌, not, List, [], ◌∷◌, ◌++◌, Option, none, some, Str,
  str_eq, has, del, Dict, lookup, has_key, length, ltb, if◌then◌else◌, ◌≡◌,
}

-- run.go: the results that a test can have.
pub data TestResult : Type 0 where
  unrun running correct incorrect abort skip : TestResult

unfoldable pub is_correct : TestResult → Bool
is_correct correct = true
is_correct _ = false

-- What `Test.Run` leaves in the result of a test that the manager ran.
unfoldable pub is_final : TestResult → Bool
is_final correct = true
is_final incorrect = true
is_final abort = true
is_final _ = false

-- A group: the id of each test, with the keys of its expanded dependencies.
abbrev pub Group : Type 0
Group = Dict (List Str)

-- The goroutine of one test in `waitForDeps`: in its loop with the dependencies that are left,
-- about to send on the abort channel, or returned.
pub data Waiter : Type 0 where
  waits : List Str → Waiter
  aborting gone : Waiter

-- What the goroutines of `Run` share. A channel is the list of what it holds, oldest first.
pub record State : Type 0 where
  pub waiter : Str → Waiter
  pub chan : Str → Dict TestResult
  pub waiting : Str → Bool
  pub jobs : Str → Bool
  pub callbacks : Dict TestResult
  pub results : ℕ

unfoldable pub update {ℓ} : {V : Type ℓ} → (Str → V) → Str → V → Str → V
update f k v j = if str_eq k j then v else f j

-- A send inside a `select` with a `default`: dropped if the buffer is full.
unfoldable pub try_send : ℕ → Str → TestResult → Dict TestResult → Dict TestResult
try_send cap id r c = if ltb (length c) cap then c ++ (id, r) ∷ [] else c

-- The loop body of `waitForDeps`, on the result that it received.
unfoldable pub receive : List Str → Str → TestResult → Waiter
receive deps id r =
    if has id deps then (if is_correct r then waits (del id deps) else aborting) else waits deps

-- The goroutine spawned for an id: the local `deps` is a copy of the keys of its dependencies.
unfoldable pub spawn : Option (List Str) → Waiter
spawn none = gone
spawn (some deps) = waits deps

abbrev pub and_then : Option State → (State → Option State) → Option State
and_then none f = none
and_then (some s) f = f s

-- One step of a goroutine, or one case of the main goroutine's `select`.
pub data Event : Type 0 where
  message ready aborted : Str → Event
  result : Str → TestResult → Event

module _ (group : Group) where
  abbrev pub size : ℕ
  size = length group

  -- The channels and goroutines that `Run` sets up.
  unfoldable pub start : State
  unfolding spawn
  start = record {
    waiter = λ id. spawn (lookup id group);
    chan = λ _. [];
    waiting = λ id. has_key id group;
    jobs = λ _. false;
    callbacks = [];
    results = 0;
  }

  unfoldable pub bcast : State → Str → TestResult → State
  unfolding try_send
  bcast s id r = record s {
    chan = λ j. if s.waiting j then try_send size id r (s.chan j) else s.chan j;
  }

  unfoldable pub callback : State → Str → TestResult → State
  unfolding try_send
  callback s id r = record s { callbacks = try_send size id r s.callbacks }

  -- A result reaches the main goroutine: broadcast it, call back and count it.
  unfoldable pub report : State → Str → TestResult → State
  unfolding bcast callback
  report s id r = let s' = callback (bcast s id r) id r in record s' { results = s'.results + 1 }

  -- A test's goroutine takes a message off its channel.
  unfoldable pub take_message : State → Str → Waiter → Dict TestResult → Option State
  unfolding receive update
  take_message s id (waits (d ∷ ds)) ((k, r) ∷ rest) = some (record s {
    waiter = update s.waiter id (receive (d ∷ ds) k r);
    chan = update s.chan id rest;
  })
  take_message s id _ _ = none

  -- `case test := <-readyChan`: the goroutine has no dependency left. The manager takes the job.
  unfoldable pub ready_case : State → Str → Waiter → Option State
  unfolding update
  ready_case s id (waits []) = some (record s {
    waiter = update s.waiter id gone;
    waiting = update s.waiting id false;
    jobs = update s.jobs id true;
  })
  ready_case s id _ = none

  -- `case test := <-abortChan`
  unfoldable pub abort_case : State → Str → Waiter → Option State
  unfolding update report
  abort_case s id aborting = some (
      report (record s { waiter = update s.waiter id gone; waiting = update s.waiting id false }) id
        skip)
  abort_case s id _ = none

  -- `case res := <-resChan`: the manager returns a test that it ran.
  unfoldable pub result_case : State → Str → TestResult → Option State
  unfolding update report is_final
  result_case s id r =
      if s.jobs id && is_final r
      then some (report (record s { jobs = update s.jobs id false }) id r)
      else none

  -- `none`: the event cannot happen now. The main goroutine selects while results are missing.
  unfoldable pub step : State → Event → Option State
  unfolding take_message ready_case abort_case result_case
  step s (message id) = take_message s id (s.waiter id) (s.chan id)
  step s (ready id) = if ltb s.results size then ready_case s id (s.waiter id) else none
  step s (aborted id) = if ltb s.results size then abort_case s id (s.waiter id) else none
  step s (result id r) = if ltb s.results size then result_case s id r else none

  -- The states that some interleaving reaches.
  pub data Reach : State → Type 0 where
    begin : Reach start
    next : {s t : State} (e : Event) → Reach s → step s e ≡ some t → Reach t

  unfoldable pub run : State → List Event → Option State
  run s [] = some s
  run s (e ∷ es) = and_then (step s e) (λ t. run t es)
