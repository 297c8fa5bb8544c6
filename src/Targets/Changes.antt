-- ===== src/Targets/Changes.antt =====
-- target.go: which changes of a target do not need a new version.
pub mod Shape
pub mod Allowed
mod Samples
use test.Base.{
  ℕ, Bool, true, false, not, ◌&&◌, ◌||◌, List, [], ◌∷◌, Option, none, some, Str, str_eq, has, Dict,
  lookup, insert, length, ◌==◌, if◌then◌else◌,
}
use test.Targets.{Target, TargetTest}

pub data ChangeError : Type 0 where
  version_differs name_differs type_differs points_differ meta_differs : ChangeError
  test_count test_removed test_points test_scoring test_leaks : ChangeError
  subtarget_count subtarget_removed : ChangeError

-- `oldMap`
unfoldable pub test_map : List TargetTest → Dict TargetTest → Dict TargetTest
unfolding insert
test_map [] m = m
test_map (t ∷ ts) m = test_map ts (insert t.id t m)

unfoldable pub check_test : Option TargetTest → TargetTest → Option ChangeError
check_test none t = some test_removed
check_test (some old) t =
    if not (old.points == t.points)
    then some test_points
    else if not (str_eq old.scoring t.scoring)
    then some test_scoring
    else if not (old.mem_leak_points == t.mem_leak_points)
    then some test_leaks
    else none

-- The first error, if there is one.
abbrev pub or_else : Option ChangeError → Option ChangeError → Option ChangeError
or_else none e = e
or_else (some x) e = some x

unfoldable pub check_tests : Dict TargetTest → List TargetTest → Option ChangeError
unfolding check_test lookup
check_tests m [] = none
check_tests m (t ∷ ts) = or_else (check_test (lookup t.id m) t) (check_tests m ts)

unfoldable pub check_names : List Str → List Str → Option ChangeError
unfolding has
check_names old [] = none
check_names old (n ∷ ns) =
    let rest = check_names old ns in if not (has n old) then some subtarget_removed else rest

abbrev pub same_flag : Bool → Bool → Bool
same_flag true b = b
same_flag false b = not b

-- `none`: the change is allowed.
unfoldable pub is_change_allowed : Target → Target → Option ChangeError
unfolding check_tests check_names test_map
is_change_allowed old t =
    if not (old.version == t.version)
    then some version_differs
    else if not (str_eq old.name t.name)
    then some name_differs
    else if not (str_eq old.kind t.kind)
    then some type_differs
    else if not (old.points == t.points)
    then some points_differ
    else if not (same_flag old.is_meta t.is_meta)
    then some meta_differs
    else if not (length old.tests == length t.tests)
    then some test_count
    else or_else (check_tests (test_map old.tests []) t.tests) (
        if not (length old.sub_names == length t.sub_names)
        then some subtarget_count
        else check_names old.sub_names t.sub_names)
