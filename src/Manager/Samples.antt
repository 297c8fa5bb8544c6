-- ===== src/Manager/Samples.antt =====
-- Three jobs on a manager that runs one at a time.
use test.Base.{ℕ, ◌≡◌, ◌≤◌, ◌*◌, refl, List, [], ◌∷◌, Option, none, some, length}
use test.Manager.{Manager, Event, arrive, recheck, finish, step, start, Reach, begin, next, run}
use test.Manager.Limits.{Limits}
use test.Manager.Bounds.{Reach-Limits}
use test.Manager.Ending.{events_le, Reach-Completed}

program : Unit {0}
unfolding step start run
program = tt

abbrev or_else : Option Manager → Manager
or_else none = start 0
or_else (some m) = m

abbrev schedule : List Event
schedule =
    arrive 1
    ∷ arrive 0
    ∷ finish 1 (some 0)
    ∷ recheck 0 40
    ∷ arrive 2
    ∷ finish 0 (some 2)
    ∷ recheck 2 20
    ∷ finish 2 none
    ∷ []

abbrev stats_of : Option Manager → Option (ℕ × ℕ)
stats_of none = none
stats_of (some m) = some (m.stats.finished, m.stats.avg_wait)

runs_all : stats_of (run 1 (start 3) schedule) ≡ some (3, 30)
unfolding program
runs_all = refl

-- A woken job finds the only place taken and waits again.
abbrev overtaken : List Event
overtaken =
    arrive 1
    ∷ arrive 0
    ∷ finish 1 (some 0)
    ∷ arrive 2
    ∷ recheck 0 5
    ∷ finish 2 (some 0)
    ∷ recheck 0 9
    ∷ finish 0 none
    ∷ []

runs_overtaken : stats_of (run 1 (start 3) overtaken) ≡ some (3, 9)
unfolding program
runs_overtaken = refl

abbrev one : Manager
one = or_else (step 1 (start 2) (arrive 0))

abbrev two : Manager
two = or_else (step 1 one (arrive 1))

reached : Reach 1 2 two
unfolding program
reached = next (arrive 1) (next (arrive 0) begin refl) refl

Reach-Limits_example : Limits 1 two
Reach-Limits_example = Reach-Limits 1 2 two reached

events_le_example : length schedule ≤ 3 * 3
unfolding program
events_le_example = events_le 1 3 schedule (or_else (run 1 (start 3) schedule)) refl

Reach-Completed_example :
    (es : List Event) × (m : Manager) × (run 1 two es ≡ some m) × (m.stats.finished ≡ 2)
Reach-Completed_example = Reach-Completed 1 2 two reached
