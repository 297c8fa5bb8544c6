-- ===== src/Intake/Samples.antt =====
-- Submissions of two students, and the pause that comes between the creation and the queue.
use test.Base.{
  ◌≡◌, refl, Str, codes, str_eq, add, del, List, [], ◌∷◌, Option, some, none, true, false,
}
use test.Intake.{
  Student, Phase, rejected, over, created, Job, Intake, Event, create, enter, lock_run, complete,
  account, set_status, not_accepting, accepting, step, start, Reach, begin, next, run, create_job,
}
use test.Intake.Steps.{Reach-Sound}
use test.Intake.Sound.{Sound}
use test.Intake.Rejected.{rejected_for_good}

abbrev alice : Student
alice = record { email = codes "alice"; staff = some false }

abbrev bob : Student
bob = record { email = codes "bob"; staff = some false }

abbrev both : List Student
both = alice ∷ bob ∷ []

-- A submission that runs to its end.
abbrev whole_run : List Event
whole_run =
    create both true
    ∷ enter 0
    ∷ create (bob ∷ []) true
    ∷ lock_run 0
    ∷ Event.launch 0 0 7
    ∷ complete 0
    ∷ account 0
    ∷ create (bob ∷ []) true
    ∷ []

abbrev pending_of : Option Intake → List Str
pending_of none = []
pending_of (some s) = s.pending

abbrev phases_of : List Job → List Phase
phases_of [] = []
phases_of (j ∷ js) = j.phase ∷ phases_of js

abbrev phases : Option Intake → List Phase
phases none = []
phases (some s) = phases_of s.jobs

-- The second request is refused, the third one is taken.
phases_lem : phases (run start whole_run) ≡ over ∷ created ∷ []
unfolding run start str_eq add del
phases_lem = refl

pending_lem : pending_of (run start whole_run) ≡ codes "bob" ∷ []
unfolding run start str_eq add del
pending_lem = refl

abbrev paused : Intake
paused = record start {
  status = not_accepting;
  pending = codes "bob" ∷ codes "alice" ∷ [];
  jobs = record { students = both; phase = created } ∷ [];
}

abbrev turned_away : Intake
turned_away = record paused { jobs = record { students = both; phase = rejected } ∷ [] }

turned_away-Reach : Reach turned_away
unfolding step start str_eq add
turned_away-Reach =
    next (enter 0) (next (set_status not_accepting) (next (create both true) begin refl) refl) refl

Reach-Sound_example : Sound turned_away
Reach-Sound_example = Reach-Sound turned_away turned_away-Reach

later :
    run turned_away (set_status accepting ∷ []) ≡ some (record turned_away { status = accepting })
unfolding run start
later = refl

abbrev resumed : Intake
resumed = record turned_away { status = accepting }

rejected_for_good_example : create_job (bob ∷ []) true resumed ≡ resumed
unfolding str_eq
rejected_for_good_example =
    rejected_for_good 0 both turned_away resumed (set_status accepting ∷ []) turned_away-Reach refl
      later (codes "bob") (bob ∷ []) true refl refl
