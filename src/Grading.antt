-- ===== src/Grading.antt =====
-- run.go: a command's output lines, and the evaluation of a command.
pub mod Match
pub mod Lines
pub mod Credit
pub mod Full
pub mod Evaluate
pub mod Points
pub mod Final
mod Samples
use test.Base.{
  ℕ, ◌^◌, ◌≡◌, Bool, true, false, not, ◌&&◌, ◌||◌, List, [], ◌∷◌, ◌++◌, Option, none, some, Str,
  codes, str_eq, Dict, has_key, is_empty, drop, ltb, leb, ◌==◌, ◌+◌, ◌*◌, ◌-◌, has_prefix,
  if◌then◌else◌,
}
use test.CommandLine.{Parts, split_command}

-- `stamped`: the wall time is set. `buffer` is what has arrived of the line.
pub record OutputLine : Type 0 where
  pub stamped : Bool
  pub buffer : Str
  pub line : Str
  pub trusted : Bool
  pub key_name : Str

-- commands.go: a line of expected output, with the key that signs it.
pub record ExpectedOutputLine : Type 0 where
  pub text : Str
  pub trusted : Bool
  pub key_name : Str

pub data CommandStatus : Type 0 where
  idle running correct incorrect : CommandStatus

-- `has_prompt`: the prompt pattern is not nil, as it is for the command that shuts down.
pub record Command : Type 0 where
  pub input : Str
  pub has_prompt : Bool
  pub panic : Str
  pub times_out : Str
  pub timed_out : Bool
  pub expected : List ExpectedOutputLine
  pub output : List OutputLine
  pub points_available : ℕ
  pub points_earned : ℕ
  pub status : CommandStatus

abbrev pub KeyMap : Type 0
KeyMap = Dict Str

abbrev pub opt_no : Str
opt_no = codes "no"

abbrev pub opt_yes : Str
opt_yes = codes "yes"

abbrev base_of : Option Parts → Option Str
base_of none = none
base_of (some (prefix, base, args)) = some base

-- `none`: the line has no command, and `splitCommand` panics.
unfoldable pub command_id : Str → Option Str
command_id line = base_of (split_command line)

unfoldable pub is_digit : ℕ → Bool
is_digit c = leb b'0' c && leb c b'9'

abbrev cons_digit : ℕ → Str × Str → Str × Str
cons_digit c (ds, rest) = (c ∷ ds, rest)

-- The longest run of digits in front, and what follows it.
unfoldable pub span_digits : Str → Str × Str
unfolding is_digit
span_digits [] = ([], [])
span_digits (c ∷ s) =
    let more = cons_digit c (span_digits s) in if is_digit c then more else ([], c ∷ s)

unfoldable pub second_number : Str → Str × Str → Option (Str × Str)
second_number x (y, rest) = if not (is_empty y) && is_empty rest then some (x, y) else none

unfoldable pub first_number : Str × Str → Option (Str × Str)
unfolding second_number span_digits has_prefix
first_number (x, rest) =
    if not (is_empty x) && has_prefix rest (codes " OF ")
    then second_number x (span_digits (drop 4 rest))
    else none

-- `PARTIAL CREDIT ([0-9]+) OF ([0-9]+)$` at the start of a text.
unfoldable pub credit_tail : Str → Option (Str × Str)
unfolding first_number
credit_tail s =
    if has_prefix s (codes "PARTIAL CREDIT ") then first_number (span_digits (drop 15 s)) else none

-- `^.*` in front of it. A dot matches all but a newline, and the rest matches in one place at most.
unfoldable pub partial_credit : Str → Option (Str × Str)
unfolding credit_tail
partial_credit [] = none
partial_credit (c ∷ s) =
    let later = partial_credit s in
    elim (credit_tail (c ∷ s)) [ some m ↦ some m | none ↦ if c == 10 then none else later ]

unfoldable pub number : ℕ → Str → ℕ
number n [] = n
number n (c ∷ s) = number (n * 10 + (c - 48)) s

-- `strconv.Atoi` on digits: an error from 2 ^ 63 on.
unfoldable pub atoi : Str → Option ℕ
unfolding number
atoi s = if ltb (number 0 s) (2 ^ 63) then some (number 0 s) else none

abbrev positive : Option ℕ → ℕ
positive none = 0
positive (some n) = n

-- The totals that one partial credit line sets: nothing unless both numbers are positive.
unfoldable pub amounts : Str × Str → ℕ × ℕ
unfolding atoi
amounts (x, y) =
    if ltb 0 (positive (atoi x)) && ltb 0 (positive (atoi y))
    then (positive (atoi x), positive (atoi y))
    else (0, 0)

unfoldable pub fail : Command → Command
fail c = record c { status = incorrect; points_earned = 0 }

unfoldable pub pass : Command → Command
pass c = record c { status = correct; points_earned = c.points_available }

-- What `eof` and the command's options say against it.
unfoldable pub ended_badly : Bool → Command → Bool
ended_badly eof c =
    (str_eq c.times_out opt_no && c.timed_out)
    || ((str_eq c.panic opt_no && (eof && not (not (str_eq c.times_out opt_no) && c.timed_out)))
        || ((str_eq c.panic opt_yes && not eof) || (str_eq c.times_out opt_yes && not c.timed_out)))

module _ (key_map : KeyMap) where
  -- Signed by this key, where the key is known.
  unfoldable pub is_signed : Str → OutputLine → Bool
  is_signed id o = not (has_key id key_map) || (o.trusted && str_eq o.key_name id)

  -- The first partial credit line that counts: what was earned, and out of how much.
  unfoldable pub credit : Str → List OutputLine → ℕ × ℕ
  unfolding is_signed partial_credit amounts
  credit id [] = (0, 0)
  credit id (o ∷ output) =
      let rest = credit id output in
      if is_signed id o
      then elim (partial_credit o.line) [ none ↦ rest | some m ↦ amounts m ]
      else rest

  -- An output line is the expected one: its text, and its signature where that matters.
  unfoldable pub accepts : ExpectedOutputLine → OutputLine → Bool
  accepts e o =
      str_eq o.line e.text
      && (not e.trusted
          || (not (has_key e.key_name key_map) || (o.trusted && str_eq o.key_name e.key_name)))

  -- The matching loop: the expected lines that are left at the end.
  unfoldable pub unmatched : List ExpectedOutputLine → List OutputLine → List ExpectedOutputLine
  unfolding accepts
  unmatched [] output = []
  unmatched (e ∷ es) [] = e ∷ es
  unmatched (e ∷ es) (o ∷ output) = unmatched (if accepts e o then es else e ∷ es) output

  -- `credit_points avail earned total` is the float32 expression
  -- `uint(float32(avail) * (float32(earned) / float32(total)))`.
  module _ (credit_points : ℕ → ℕ → ℕ → ℕ) where
    unfoldable pub award : Command → ℕ × ℕ → Command
    unfolding fail
    award c (earned, total) =
        if ltb 0 earned && ltb 0 total
        then record c {
          points_earned = credit_points c.points_available earned total;
          status = if total == earned then correct else incorrect;
        }
        else fail c

    -- No full match: look for partial credit, for which the command's id is needed.
    unfoldable pub part : Command → Option Str → Option Command
    unfolding award credit
    part c none = none
    part c (some id) = some (award c (credit id c.output))

    -- `none`: a panic.
    unfoldable pub evaluate : Bool → Command → Option Command
    unfolding ended_badly pass fail unmatched part command_id
    evaluate eof c =
        if ended_badly eof c
        then some (fail c)
        else if is_empty c.expected || is_empty (unmatched c.expected c.output)
        then some (pass c)
        else part c (command_id c.input)
