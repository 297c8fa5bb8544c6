-- ===== src/Manager.antt =====
-- manager.go: the test manager, which limits how many tests run. An event is what one goroutine of
-- `runOrQueueJob` does while it holds the lock of `statsCond`.
pub mod Counting
pub mod Limits
pub mod Signals
pub mod Bounds
pub mod Liveness
pub mod Weights
pub mod Ending
mod Samples
use test.Base.{
  ℕ, zero, suc, ◌+◌, ◌-◌, ◌*◌, ◌/◌, ◌≡◌, Bool, true, false, ◌&&◌, List, [], ◌∷◌, Option, none, some,
  get_elem?, ltb, leb, if◌then◌else◌,
}

-- A job's goroutine: before the lock, in `Wait`, signalled, in `Test.Run`, or past it.
pub data Phase : Type 0 where
  fresh waits woken runs over : Phase

-- `waited` is the source's `total`. Times are in ms.
pub record ManagerStats : Type 0 where
  pub running : ℕ
  pub high_running : ℕ
  pub queued : ℕ
  pub high_queued : ℕ
  pub finished : ℕ
  pub max_wait : ℕ
  pub avg_wait : ℕ
  pub waited : ℕ

pub record Manager : Type 0 where
  pub stats : ManagerStats
  pub jobs : List Phase

-- `arrive`: the first look at the condition. `recheck`: after a wake-up, with the time since the start.
-- `finish`: the test is over, and `Signal` wakes this job.
pub data Event : Type 0 where
  arrive : ℕ → Event
  recheck : ℕ → ℕ → Event
  finish : ℕ → Option ℕ → Event

unfoldable pub set_at : List Phase → ℕ → Phase → List Phase
set_at [] n x = []
set_at (y ∷ ys) zero x = x ∷ ys
set_at (y ∷ ys) (suc n) x = y ∷ set_at ys n x

unfoldable pub enqueue : ManagerStats → ManagerStats
enqueue s = record s {
  queued = s.queued + 1;
  high_queued = if ltb s.high_queued (s.queued + 1) then s.queued + 1 else s.high_queued;
}

unfoldable pub dequeue : ℕ → ManagerStats → ManagerStats
dequeue wait s = record s {
  queued = s.queued - 1;
  max_wait = if ltb s.max_wait wait then wait else s.max_wait;
  avg_wait = (s.waited * s.avg_wait + wait) / (s.waited + 1);
  waited = s.waited + 1;
}

unfoldable pub launch : ManagerStats → ManagerStats
launch s = record s {
  running = s.running + 1;
  high_running = if ltb s.high_running (s.running + 1) then s.running + 1 else s.high_running;
}

unfoldable pub retire : ManagerStats → ManagerStats
retire s = record s { running = s.running - 1; finished = s.finished + 1 }

unfoldable pub is_waiting : List Phase → Bool
is_waiting [] = false
is_waiting (waits ∷ js) = true
is_waiting (_ ∷ js) = is_waiting js

-- The phase of the job, in a case distinction.
unfoldable pub wake : Manager → ℕ → Option Phase → Option Manager
unfolding set_at
wake m k (some waits) = some (record m { jobs = set_at m.jobs k woken })
wake m k _ = none

-- `Signal` wakes one goroutine that waits, if there is any.
unfoldable pub signal : Manager → Option ℕ → Option Manager
unfolding wake is_waiting
signal m none = if is_waiting m.jobs then none else some m
signal m (some k) = wake m k (get_elem? m.jobs k)

module _ (capacity : ℕ) where
  unfoldable pub at_capacity : ManagerStats → Bool
  at_capacity s = ltb 0 capacity && leb capacity s.running

  unfoldable pub arrive_job : Manager → ℕ → Option Phase → Option Manager
  unfolding at_capacity enqueue launch set_at
  arrive_job m n (some fresh) = some (
      if at_capacity m.stats
      then record { stats = enqueue m.stats; jobs = set_at m.jobs n waits }
      else record { stats = launch m.stats; jobs = set_at m.jobs n runs })
  arrive_job m n _ = none

  unfoldable pub recheck_job : Manager → ℕ → ℕ → Option Phase → Option Manager
  unfolding at_capacity dequeue launch set_at
  recheck_job m n wait (some woken) = some (
      if at_capacity m.stats
      then record m { jobs = set_at m.jobs n waits }
      else record { stats = launch (dequeue wait m.stats); jobs = set_at m.jobs n runs })
  recheck_job m n wait _ = none

  unfoldable pub finish_job : Manager → ℕ → Option ℕ → Option Phase → Option Manager
  unfolding signal retire set_at
  finish_job m n k (some runs) =
      signal (record { stats = retire m.stats; jobs = set_at m.jobs n over }) k
  finish_job m n k _ = none

  -- `none`: the event cannot happen now.
  unfoldable pub step : Manager → Event → Option Manager
  unfolding arrive_job recheck_job finish_job
  step m (arrive n) = arrive_job m n (get_elem? m.jobs n)
  step m (recheck n wait) = recheck_job m n wait (get_elem? m.jobs n)
  step m (finish n k) = finish_job m n k (get_elem? m.jobs n)

unfoldable pub all_fresh : ℕ → List Phase
all_fresh zero = []
all_fresh (suc n) = fresh ∷ all_fresh n

-- The manager with the jobs that will be submitted to it.
unfoldable pub start : ℕ → Manager
unfolding all_fresh
start n = record {
  stats = record {
    running = 0;
    high_running = 0;
    queued = 0;
    high_queued = 0;
    finished = 0;
    max_wait = 0;
    avg_wait = 0;
    waited = 0;
  };
  jobs = all_fresh n;
}

-- The states that some interleaving of `n` jobs reaches.
pub data Reach (capacity n : ℕ) : Manager → Type 0 where
  begin : Reach capacity n (start n)
  next :
      {m m' : Manager} (e : Event)
      → Reach capacity n m
      → step capacity m e ≡ some m'
      → Reach capacity n m'

abbrev and_then : Option Manager → (Manager → Option Manager) → Option Manager
and_then none f = none
and_then (some m) f = f m

unfoldable pub run : ℕ → Manager → List Event → Option Manager
unfolding step
run capacity m [] = some m
run capacity m (e ∷ es) = and_then (step capacity m e) (λ m'. run capacity m' es)
