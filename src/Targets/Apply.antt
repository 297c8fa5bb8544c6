-- ===== src/Targets/Apply.antt =====
-- target.go: `TargetTest.applyTo`, which maps the points and arguments of a target onto a test.
pub mod Filling
pub mod Points
pub mod Coverage
use test.Base.{
  add64, ℕ, zero, suc, ◌+◌, ◌≡◌, Bool, true, false, not, ◌&&◌, ◌||◌, List, [], ◌∷◌, Option, none,
  some, Str, str_eq, is_empty, ◌==◌, ltb, if◌then◌else◌,
}
use test.CommandLine.{replace_args}
use test.Grading.{Command, command_id}
use test.TestRun.{scoring_partial}
use test.Targets.{TargetCommand, TargetTest}

-- A command of the test, under the id that it had at the start, and whether it was instantiated.
pub record Instance : Type 0 where
  pub id : Str
  pub command : Command
  pub done : Bool

-- The fields of `Test` that a target sets, with the test's commands.
pub record Scored : Type 0 where
  pub points_available : ℕ
  pub scoring_method : Str
  pub mem_leak_points : ℕ
  pub commands : List Instance

-- `panics` stands for the panic on a command line without a command.
pub data ApplyError : Type 0 where
  no_instance bad_index instantiated wrong_points unassigned panics : ApplyError

pub data Applied {ℓ} (A : Type ℓ) : Type ℓ where
  done : A → Applied A
  failed : ApplyError → Applied A

abbrev pub then_apply {ℓ κ} : {A : Type ℓ} {B : Type κ} → Applied A → (A → Applied B) → Applied B
then_apply (done a) f = f a
then_apply (failed e) f = failed e

abbrev pub put : Instance → List Instance × ℕ → List Instance × ℕ
put i (is, assigned) = (i ∷ is, assigned)

-- The ids of all commands are looked up first.
unfoldable pub add_instance :
    Command → Option Str → Applied (List Instance) → Applied (List Instance)
add_instance c none rest = failed panics
add_instance c (some id) (failed e) = failed e
add_instance c (some id) (done rest) = done (record { id = id; command = c; done = false } ∷ rest)

unfoldable pub instances : List Command → Applied (List Instance)
unfolding add_instance command_id
instances [] = done []
instances (c ∷ cs) = add_instance c (command_id c.input) (instances cs)

unfoldable pub count : Str → List Instance → ℕ
count id [] = 0
count id (i ∷ is) = if str_eq i.id id then suc (count id is) else count id is

unfoldable pub set_input : Command → Option Str → Applied Command
set_input c none = failed panics
set_input c (some line) = done (record c { input = line })

unfoldable pub set_args : Command → List Str → Applied Command
unfolding set_input replace_args
set_args c [] = done c
set_args c (a ∷ args) = set_input c (replace_args c.input (a ∷ args))

module _ (scoring : Str) (tc : TargetCommand) where
  unfoldable pub set_points : Instance → Command → Instance
  set_points i c = record {
    id = i.id;
    command =
        if str_eq scoring scoring_partial then record c { points_available = tc.points } else c;
    done = true;
  }

  -- The points that one instance takes.
  unfoldable pub share : ℕ → ℕ
  unfolding add64
  share assigned = if str_eq scoring scoring_partial then add64 assigned tc.points else assigned

  unfoldable pub instantiate : Instance → Applied Instance
  unfolding set_args set_points
  instantiate i =
      if i.done
      then failed instantiated
      else then_apply (set_args i.command tc.args) (λ c. done (set_points i c))

  -- The loop over the instances: those with this id, and with an index only the one at it. `seen` is how
  -- many were passed, `assigned` the points so far.
  unfoldable pub fill : ℕ → List Instance → ℕ → Applied (List Instance × ℕ)
  unfolding instantiate share
  fill seen [] assigned = done ([], assigned)
  fill seen (i ∷ is) assigned =
      if not (str_eq i.id tc.id)
      then then_apply (fill seen is assigned) (λ r. done (put i r))
      else if (tc.index == 0) || (tc.index == suc seen)
      then then_apply (instantiate i)
          (λ i'. then_apply (fill (suc seen) is (share assigned)) (λ r. done (put i' r)))
      else then_apply (fill (suc seen) is assigned) (λ r. done (put i r))

  -- One command of the target.
  unfoldable pub apply_command : List Instance → ℕ → Applied (List Instance × ℕ)
  unfolding fill count
  apply_command is assigned =
      if count tc.id is == 0
      then failed no_instance
      else if ltb (count tc.id is) tc.index
      then failed bad_index
      else fill 0 is assigned

unfoldable pub apply_commands :
    Str → List TargetCommand → List Instance → ℕ → Applied (List Instance × ℕ)
unfolding apply_command
apply_commands scoring [] is assigned = done (is, assigned)
apply_commands scoring (tc ∷ tcs) is assigned =
    then_apply (apply_command scoring tc is assigned) (λ r. apply_commands scoring tcs r.0 r.1)

unfoldable pub all_done : Str → List Instance → Bool
all_done id [] = true
all_done id (i ∷ is) = (not (str_eq i.id id) || i.done) && all_done id is

-- Deleting the id from the map of instances.
unfoldable pub forget : Str → List Instance → List Instance
forget id [] = []
forget id (i ∷ is) = if str_eq i.id id then forget id is else i ∷ forget id is

unfoldable pub covered : List TargetCommand → List Instance → Bool
unfolding all_done forget
covered [] is = true
covered (tc ∷ tcs) is = all_done tc.id is && covered tcs (forget tc.id is)

unfoldable pub verify : TargetTest → List Instance × ℕ → Applied Scored
unfolding covered
verify tt' (is, assigned) =
    if str_eq tt'.scoring scoring_partial && not (assigned == tt'.points)
    then failed wrong_points
    else if not (covered tt'.commands is)
    then failed unassigned
    else done (record {
      points_available = tt'.points;
      scoring_method = tt'.scoring;
      mem_leak_points = tt'.mem_leak_points;
      commands = is;
    })

-- On an error the source leaves a test behind that no caller uses.
unfoldable pub apply_to : TargetTest → List Command → Applied Scored
unfolding instances apply_commands verify
apply_to tt' cs =
    then_apply (instances cs)
      (λ is. then_apply (apply_commands tt'.scoring tt'.commands is 0) (verify tt'))
