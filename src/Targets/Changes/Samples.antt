-- ===== src/Targets/Changes/Samples.antt =====
-- A target, and the same target with its tests in another order and new names for display.
use test.Base.{ℕ, ◌≡◌, refl, ◌↔◌, List, [], ◌∷◌, none, some, Str, codes, false}
use test.Targets.{Target, TargetTest}
use test.Targets.Changes.{is_change_allowed, test_points}
use test.Targets.Changes.Shape.{SameShape}
use test.Targets.Changes.Allowed.{is_change_allowed_iff}

abbrev graded : Str → ℕ → TargetTest
graded id points = record {
  id = id;
  scoring = codes "entire";
  points = points;
  mem_leak_points = 0;
  commands = [];
}

abbrev synch : List TargetTest → Target
synch tests = record {
  name = codes "asst1";
  active = codes "true";
  version = 2;
  kind = codes "asst";
  points = 50;
  kconfig = codes "ASST1";
  requires_userland = false;
  required_commit = [];
  tests = tests;
  is_meta = false;
  sub_names = [];
  meta_name = [];
  leaderboard = codes "true";
  meta_target = none;
  previous = [];
}

abbrev earlier : Target
earlier = synch (graded (codes "lt1") 20 ∷ graded (codes "cvt1") 30 ∷ [])

abbrev later : Target
later = record (synch (graded (codes "cvt1") 30 ∷ graded (codes "lt1") 20 ∷ [])) {
  active = codes "false";
}

is_change_allowed-reordered : is_change_allowed earlier later ≡ none
unfolding is_change_allowed test.Base.str_eq
is_change_allowed-reordered = refl

is_change_allowed-points :
    is_change_allowed earlier (synch (graded (codes "lt1") 30 ∷ graded (codes "cvt1") 20 ∷ []))
    ≡ some test_points
unfolding is_change_allowed test.Base.str_eq
is_change_allowed-points = refl

is_change_allowed_iff_example : (is_change_allowed earlier later ≡ none) ↔ SameShape earlier later
unfolding test.Base.has test.Base.str_eq
is_change_allowed_iff_example =
    is_change_allowed_iff earlier later (refl, (refl, tt)) (refl, (refl, tt)) tt tt
