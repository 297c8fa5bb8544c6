-- ===== src/Intake.antt =====
-- submission.go and manager.go: how submissions are taken in. The students of a submission are locked
-- when it is created, the submission manager queues it and runs it, and they are unlocked at its end.
pub mod Locks
pub mod Sound
pub mod Steps
pub mod Rejected
mod Samples
use test.Base.{
  ℕ, zero, suc, ◌+◌, ◌≡◌, Bool, true, false, not, ◌&&◌, ◌||◌, List, [], ◌∷◌, ◌++◌, Option, none,
  some, Str, has, add, del, get_elem?, ltb, if◌then◌else◌,
}
use test.Manager
use test.Manager.{ManagerStats, enqueue, dequeue, retire}

-- `staff`: what `IsStaff` finds, if the lookup succeeds.
pub record Student : Type 0 where
  pub email : Str
  pub staff : Option Bool

pub data ManagerStatus : Type 0 where
  accepting not_accepting staff_only : ManagerStatus

-- A submission that `NewSubmission` returned: not given to the manager yet, before the run lock, holding
-- it, in `Submission.Run`, with its students unlocked, and counted as finished; or refused by the manager.
pub data Phase : Type 0 where
  created queued on_deck running unlocked over rejected : Phase

pub record Job : Type 0 where
  pub students : List Student
  pub phase : Phase

pub record Intake : Type 0 where
  pub status : ManagerStatus
  pub stats : ManagerStats
  pub pending : List Str
  pub jobs : List Job

-- `create`: a request that is valid, and whether the database takes the submission.
-- `launch`: the tests that the test manager has queued, and the time since `enter` in ms.
pub data Event : Type 0 where
  create : List Student → Bool → Event
  enter lock_run complete account : ℕ → Event
  launch : ℕ → ℕ → ℕ → Event
  set_status : ManagerStatus → Event

-- The first pass of `NewSubmission`.
unfoldable pub any_pending : List Student → List Str → Bool
unfolding has
any_pending [] pending = false
any_pending (s ∷ ss) pending = has s.email pending || any_pending ss pending

unfoldable pub lock_students : List Student → List Str → List Str
lock_students [] pending = pending
lock_students (s ∷ ss) pending = lock_students ss (add s.email pending)

unfoldable pub unlock_students : List Student → List Str → List Str
unlock_students [] pending = pending
unlock_students (s ∷ ss) pending = unlock_students ss (del s.email pending)

-- `isStaff, _ := student.IsStaff(...)`
abbrev pub is_staff : Option Bool → Bool
is_staff none = false
is_staff (some b) = b

unfoldable pub any_student : List Student → Bool
any_student [] = false
any_student (s ∷ ss) = not (is_staff s.staff) || any_student ss

-- Whether `Run` of the submission manager refuses the submission.
unfoldable pub refuses : ManagerStatus → List Student → Bool
unfolding any_student
refuses accepting ss = false
refuses not_accepting ss = true
refuses staff_only ss = any_student ss

unfoldable pub set_phase : ℕ → Phase → List Job → List Job
set_phase n p [] = []
set_phase zero p (j ∷ js) = record j { phase = p } ∷ js
set_phase (suc n) p (j ∷ js) = j ∷ set_phase n p js

unfoldable pub is_on_deck : Phase → Bool
is_on_deck on_deck = true
is_on_deck _ = false

-- Whether the run lock is held.
unfoldable pub run_locked : List Job → Bool
unfolding is_on_deck
run_locked [] = false
run_locked (j ∷ js) = is_on_deck j.phase || run_locked js

-- The last part of `NewSubmission`, under the lock of the users.
unfoldable pub create_job : List Student → Bool → Intake → Intake
unfolding any_pending lock_students unlock_students
create_job ss stored s =
    if any_pending ss s.pending
    then s
    else if stored
    then (record s {
      pending = lock_students ss s.pending;
      jobs = s.jobs ++ record { students = ss; phase = created } ∷ [];
    })
    else (record s { pending = unlock_students ss (lock_students ss s.pending) })

unfoldable pub enter_job : ℕ → Intake → Option Job → Option Intake
unfolding refuses enqueue set_phase
enter_job n s none = none
enter_job n s (some j) = elim j.phase [
  | created ↦ some (
      if refuses s.status j.students
      then (record s { jobs = set_phase n rejected s.jobs })
      else (record s { stats = enqueue s.stats; jobs = set_phase n queued s.jobs }))
  | _ ↦ none
]

-- `runlock.Lock()`
unfoldable pub lock_job : ℕ → Intake → Option Job → Option Intake
unfolding run_locked set_phase
lock_job n s none = none
lock_job n s (some j) = elim j.phase [
  | queued ↦
      if run_locked s.jobs then none else some (record s { jobs = set_phase n on_deck s.jobs })
  | _ ↦ none
]

-- From the wait for the test manager's queue to `runlock.Unlock()`.
unfoldable pub launch_job : ℕ → ℕ → ℕ → Intake → Option Job → Option Intake
unfolding dequeue Manager.launch set_phase
launch_job n tests wait s none = none
launch_job n tests wait s (some j) = elim j.phase [
  | on_deck ↦
      if ltb 0 tests
      then none
      else some (record s {
        stats = Manager.launch (dequeue wait s.stats);
        jobs = set_phase n running s.jobs;
      })
  | _ ↦ none
]

-- `Submission.Run` ends, and its last deferred call is `unlockStudents`.
unfoldable pub complete_job : ℕ → Intake → Option Job → Option Intake
unfolding unlock_students set_phase
complete_job n s none = none
complete_job n s (some j) = elim j.phase [
  | running ↦ some (record s {
    pending = unlock_students j.students s.pending;
    jobs = set_phase n unlocked s.jobs;
  })
  | _ ↦ none
]

unfoldable pub account_job : ℕ → Intake → Option Job → Option Intake
unfolding retire set_phase
account_job n s none = none
account_job n s (some j) = elim j.phase [
  | unlocked ↦ some (record s { stats = retire s.stats; jobs = set_phase n over s.jobs })
  | _ ↦ none
]

-- `none`: the event cannot happen now.
unfoldable pub step : Intake → Event → Option Intake
unfolding create_job enter_job lock_job launch_job complete_job account_job
step s (create ss stored) = some (create_job ss stored s)
step s (enter n) = enter_job n s (get_elem? s.jobs n)
step s (lock_run n) = lock_job n s (get_elem? s.jobs n)
step s (launch n tests wait) = launch_job n tests wait s (get_elem? s.jobs n)
step s (complete n) = complete_job n s (get_elem? s.jobs n)
step s (account n) = account_job n s (get_elem? s.jobs n)
step s (set_status st) = some (record s { status = st })

-- `NewSubmissionManager`, with nobody pending.
abbrev pub no_stats : ManagerStats
no_stats = record {
  running = 0;
  high_running = 0;
  queued = 0;
  high_queued = 0;
  finished = 0;
  max_wait = 0;
  avg_wait = 0;
  waited = 0;
}

unfoldable pub start : Intake
start = record { status = accepting; stats = no_stats; pending = []; jobs = [] }

-- The states that some interleaving reaches.
pub data Reach : Intake → Type 0 where
  begin : Reach start
  next : {s s' : Intake} (e : Event) → Reach s → step s e ≡ some s' → Reach s'

abbrev pub and_then : Option Intake → (Intake → Option Intake) → Option Intake
and_then none f = none
and_then (some s) f = f s

unfoldable pub run : Intake → List Event → Option Intake
unfolding step
run s [] = some s
run s (e ∷ es) = and_then (step s e) (λ t. run t es)
