-- ===== src/Targets.antt =====
-- target.go: targets, and how metatargets and their subtargets are linked.
pub mod Linking
pub mod Apply
pub mod Changes
mod Samples
use test.Base.{
  add64, ℕ, ◌+◌, ◌%◌, ◌^◌, ◌≡◌, Bool, true, false, not, ◌&&◌, ◌||◌, List, [], ◌∷◌, ◌++◌, Option,
  none, some, Str, codes, str_eq, Dict, lookup, is_empty, ◌==◌, if◌then◌else◌,
}
use test.TestRun.{scoring_entire, scoring_partial}

-- `index` is 0 where the source's `Index` is not positive.
pub record TargetCommand : Type 0 where
  pub id : Str
  pub index : ℕ
  pub points : ℕ
  pub args : List Str

pub record TargetTest : Type 0 where
  pub id : Str
  pub scoring : Str
  pub points : ℕ
  pub mem_leak_points : ℕ
  pub commands : List TargetCommand

-- `meta_target` and `previous` point to targets of the environment, by name.
pub record Target : Type 0 where
  pub name : Str
  pub active : Str
  pub version : ℕ
  pub kind : Str
  pub points : ℕ
  pub kconfig : Str
  pub requires_userland : Bool
  pub required_commit : Str
  pub tests : List TargetTest
  pub is_meta : Bool
  pub sub_names : List Str
  pub meta_name : Str
  pub leaderboard : Str
  pub meta_target : Option Str
  pub previous : List Str

pub data TargetError : Type 0 where
  no_meta no_subtarget not_found not_meta has_tests no_subtargets : TargetError
  userland_differs kconfig_differs type_differs points_differ : TargetError

pub data Outcome {ℓ} (A : Type ℓ) : Type ℓ where
  ok : A → Outcome A
  error : TargetError → Outcome A

unfoldable pub default_scoring : TargetTest → TargetTest
default_scoring t =
    if str_eq t.scoring scoring_partial then t else record t { scoring = scoring_entire }

unfoldable pub default_tests : List TargetTest → List TargetTest
unfolding default_scoring
default_tests [] = []
default_tests (t ∷ ts) = default_scoring t ∷ default_tests ts

unfoldable pub default_flag : Str → Str
default_flag s = if str_eq s (codes "false") then s else codes "true"

unfoldable pub fix_defaults : Target → Target
unfolding default_tests default_flag
fix_defaults t = record t {
  tests = default_tests t.tests;
  active = default_flag t.active;
  leaderboard = default_flag t.leaderboard;
}

module _ (targets : Dict Target) where
  unfoldable pub add_other : Option Target → Str → Outcome (List Str) → Outcome (List Str)
  add_other none name rest = error no_subtarget
  add_other (some t) name (ok others) = ok (name ∷ others)
  add_other (some t) name (error e) = error e

  -- The subtargets before `this`.
  unfoldable pub before : Str → List Str → Outcome (List Str)
  unfolding add_other
  before this [] = error not_found
  before this (name ∷ names) =
      let rest = before this names in
      if str_eq name this then ok [] else add_other (lookup name targets) name rest

  unfoldable pub link : Target → Str → Outcome (List Str) → Outcome Target
  link t m (ok others) = ok (record t { meta_target = some m; previous = others })
  link t m (error e) = error e

  unfoldable pub link_to : Target → Option Target → Outcome Target
  unfolding link before
  link_to t none = error no_meta
  link_to t (some m) = link t t.meta_name (before t.name m.sub_names)

  unfoldable pub init_as_sub_target : Target → Outcome Target
  unfolding link_to
  init_as_sub_target t =
      if is_empty t.meta_name then ok t else link_to t (lookup t.meta_name targets)

  -- What must match between a metatarget `t` and its subtarget.
  unfoldable pub mismatch : Target → Target → Option TargetError
  mismatch t sub =
      if not (if sub.requires_userland then t.requires_userland else not t.requires_userland)
      then some userland_differs
      else if not (str_eq sub.kconfig t.kconfig)
      then some kconfig_differs
      else if not (str_eq sub.kind t.kind)
      then some type_differs
      else none

  -- `points` and `done` are what the loop has summed up and appended so far.
  unfoldable pub take_subs : Target → List Str → ℕ → List Str → Outcome (ℕ × List Str)
  unfolding mismatch add64
  take_subs t [] points done = ok (points, done)
  take_subs t (name ∷ names) points done = elim (lookup name targets) [
    | none ↦ error no_subtarget
    | some sub ↦ elim (mismatch t sub) [
      | some e ↦ error e
      | none ↦ take_subs t names (add64 points sub.points) (done ++ name ∷ [])
    ]
  ]

  unfoldable pub check_points : Target → Outcome (ℕ × List Str) → Outcome Target
  check_points t (error e) = error e
  check_points t (ok (points, subs)) =
      if points == t.points then ok (record t { previous = subs }) else error points_differ

  unfoldable pub init_as_meta_target : Target → Outcome Target
  unfolding take_subs check_points
  init_as_meta_target t =
      if not t.is_meta
      then error not_meta
      else if not (is_empty t.tests)
      then error has_tests
      else if is_empty t.sub_names
      then error no_subtargets
      else check_points t (take_subs t t.sub_names 0 [])
