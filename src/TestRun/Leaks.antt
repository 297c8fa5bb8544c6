-- ===== src/TestRun/Leaks.antt =====
-- run.go: `evaluateMemLeaks` and `deductMemLeakPoints`.
pub mod Deduction
pub mod Reading
use test.Base.{
  ℕ, ◌-◌, ◌^◌, ◌≡◌, Bool, true, false, not, ◌&&◌, List, [], ◌∷◌, Option, none, some, Str, codes,
  str_eq, is_empty, ltb, ◌==◌, drop, has_prefix, if◌then◌else◌,
}
use test.Grading.{OutputLine, Command, KeyMap, is_signed, span_digits, number, command_id}
use test.TestRun.{Test, add_status}

abbrev pub khu : Str
khu = codes "khu"

-- `strconv.Atoi` without its error: the greatest int from there on.
unfoldable pub clamp : ℕ → ℕ
clamp n = if ltb n (2 ^ 63) then n else 2 ^ 63 - 1

unfoldable pub khu_digits : Str × Str → Option ℕ
unfolding clamp number
khu_digits (ds, rest) =
    if not (is_empty ds) && is_empty rest then some (clamp (number 0 ds)) else none

-- `^khu: (\d+)$`
unfoldable pub khu_number : Str → Option ℕ
unfolding khu_digits span_digits has_prefix
khu_number s = if has_prefix s (codes "khu: ") then khu_digits (span_digits (drop 5 s)) else none

-- Deduct points for leaking memory, if applicable.
unfoldable pub deduct : Test → Test
deduct t =
    if ltb 0 t.points_available && ltb 0 t.mem_leak_points
    then (if ltb t.points_earned t.mem_leak_points
        then record t { mem_leak_deducted = t.points_earned; points_earned = 0 }
        else record t {
          points_earned = t.points_earned - t.mem_leak_points;
          mem_leak_deducted = t.mem_leak_points;
        })
    else t

unfoldable pub leak : Test → Test
unfolding deduct add_status
leak t = add_status (codes "memory leak") (deduct t)

module _ (key_map : KeyMap) where
  -- What the first trusted line of the form "khu: <number>" says.
  unfoldable pub used_memory : List OutputLine → Option ℕ
  unfolding is_signed khu_number
  used_memory [] = none
  used_memory (o ∷ output) =
      let rest = used_memory output in
      if is_signed key_map khu o
      then elim (khu_number o.line) [ none ↦ rest | some n ↦ some n ]
      else rest

  -- One khu command. `expected` is 0 until a number was seen, and `rest` is the rest of the loop.
  unfoldable pub compare : (ℕ → Test → Option Test) → ℕ → Option ℕ → Test → Option Test
  unfolding leak
  compare rest expected none t = some (leak t)
  compare rest expected (some used) t =
      if expected == 0
      then rest used t
      else if expected == used
      then rest expected t
      else some (leak t)

  unfoldable pub is_khu : Option Str → Option Bool
  is_khu none = none
  is_khu (some id) = some (str_eq id khu)

  unfoldable pub check_command :
      (ℕ → Test → Option Test) → Option Bool → List OutputLine → ℕ → Test → Option Test
  unfolding compare used_memory
  check_command rest none output expected t = none
  check_command rest (some false) output expected t = rest expected t
  check_command rest (some true) output expected t =
      compare rest expected (used_memory output) (record t { mem_leak_checked = true })

  -- The loop over the commands. `none`: a panic.
  unfoldable pub check_leaks : List Command → ℕ → Test → Option Test
  unfolding check_command is_khu command_id
  check_leaks [] expected t = some t
  check_leaks (c ∷ cs) expected t =
      check_command (check_leaks cs) (is_khu (command_id c.input)) c.output expected t
