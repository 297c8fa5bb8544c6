-- ===== src/TargetGroup/Samples.antt =====
-- A target with one graded test, which depends on another.
use test.Base.{
  ◌≡◌, refl, Str, codes, str_eq, List, [], ◌∷◌, Option, none, some, true, false, has, lookup,
  has_key, insert, add, del, has_prefix,
}
use test.CommandLine.{scan, split_command, replace_args}
use test.Grading.{Command, CommandStatus, opt_no}
use test.Graph.{add_edge, new_graph, top_sort}
use test.Graph.Rounds.{RangeLaws}
use test.Paths.{abs, rel}
use test.TestRun.{scoring_partial}
use test.Targets.{Target, TargetTest}
use test.Targets.Apply.{apply_to, fill}
use test.Groups.{Test, read, Loaded, tests_from_glob, expand_dep, add_all}
use test.Groups.Expand.{group_from_config}
use test.TargetGroup.{
  Assembled, assembled, refused, InstanceError, Result, duplicate_test, instance_of,
}
use test.TargetGroup.Instances.{Instanced, instance_of-Instanced}

program : Unit {0}
unfolding lookup apply_to fill scan split_command replace_args str_eq has_prefix instance_of
    group_from_config has tests_from_glob abs insert rel expand_dep add_all add add_edge new_graph
    top_sort del has_key
program = tt

abbrev in_order : List Str → List Str
in_order ks = ks

in_order_laws : RangeLaws in_order
in_order_laws = record { visits = λ k ks. refl; once = λ ks d. d }

abbrev boot : Test
boot = record {
  dependency_id = codes "boot.t";
  tags = codes "boot" ∷ [];
  depends = [];
  expanded_deps = [];
  is_dependency = false;
  points_available = 0;
  points_earned = 0;
}

abbrev locks : Test
locks = record boot { dependency_id = codes "lt1.t"; tags = []; depends = codes "boot" ∷ [] }

abbrev loaded : List Loaded
loaded = read boot ∷ read locks ∷ []

-- What the file system has for the one pattern that is used.
abbrev files : Str → Option (List Str)
files path = some (codes "/r/tests/lt1.t" ∷ [])

abbrev command : Str → Command
command line = record {
  input = line;
  has_prompt = true;
  panic = opt_no;
  times_out = opt_no;
  timed_out = false;
  expected = [];
  output = [];
  points_available = 0;
  points_earned = 0;
  status = CommandStatus.idle;
}

abbrev commands : Str → List Command
commands id = command (codes "lt1") ∷ []

abbrev graded : TargetTest
graded = record {
  id = codes "lt1.t";
  scoring = scoring_partial;
  points = 10;
  mem_leak_points = 0;
  commands = record { id = codes "lt1"; index = 0; points = 10; args = [] } ∷ [];
}

abbrev target : List TargetTest → Target
target tests = record {
  name = codes "asst1";
  active = codes "true";
  version = 1;
  kind = codes "asst";
  points = 10;
  kconfig = codes "ASST1";
  requires_userland = false;
  required_commit = [];
  tests = tests;
  is_meta = false;
  sub_names = [];
  meta_name = [];
  leaderboard = codes "true";
  meta_target = none;
  previous = [];
}

abbrev ids_in : Assembled InstanceError Result → List Str
ids_in (assembled (group, ds, ms)) = group
ids_in (refused e) = []

made_group :
    ids_in (
      instance_of commands
        (codes "/r")
        files
        in_order
        (codes "tests")
        loaded
        []
        (target (graded ∷ [])))
    ≡ codes "lt1.t" ∷ codes "boot.t" ∷ []
unfolding program
made_group = refl

named_twice :
    instance_of commands
      (codes "/r")
      files
      in_order
      (codes "tests")
      loaded
      []
      (target (graded ∷ graded ∷ []))
    ≡ refused duplicate_test
unfolding program
named_twice = refl

instance_of-Instanced_example :
    Instanced commands in_order in_order_laws
      (codes "/r")
      files
      (codes "tests")
      loaded
      []
      (target (graded ∷ []))
      (instance_of commands
        (codes "/r")
        files
        in_order
        (codes "tests")
        loaded
        []
        (target (graded ∷ [])))
instance_of-Instanced_example =
    instance_of-Instanced commands in_order in_order_laws (codes "/r") files (codes "tests") loaded
      [] (target (graded ∷ []))
