-- ===== src/CommandLine.antt =====
-- run.go: the command line of a test, split into arguments and put together again.
pub mod Join
pub mod Words
pub mod Replace
mod Samples
use test.Base.{
  ℕ, ◌≡◌, Bool, true, false, not, ◌&&◌, ◌||◌, List, [], ◌∷◌, ◌++◌, Option, none, some, Str, codes,
  ◌==◌, has_prefix, if◌then◌else◌,
}

-- What one byte does in `splitArgs`: the new `inQuote` and `escape`, and whether it ends an argument.
unfoldable pub scan : Bool → Bool → ℕ → Bool × Bool × Bool
scan in_quote escape c =
    if c == b'"' && not escape
    then (not in_quote, escape, false)
    else if escape || c == 92
    then (in_quote, not escape, false)
    else (in_quote, escape, not in_quote && c == 32)

-- The last argument is added unless it is empty: `start < len(line)`.
unfoldable pub last_arg : Str → List Str
last_arg [] = []
last_arg (c ∷ cs) = (c ∷ cs) ∷ []

-- The loop of `splitArgs`: `cur` is `line[start:pos]`.
unfoldable pub split_loop : Bool → Bool → Str → Str → List Str
unfolding last_arg
split_loop in_quote escape cur [] = last_arg cur
split_loop in_quote escape cur (c ∷ rest) =
    let (q, e, cut) = scan in_quote escape c in
    let args = split_loop q e (if cut then [] else cur ++ c ∷ []) rest in
    if cut then cur ∷ args else args

unfoldable pub split_args : Str → List Str
unfolding split_loop
split_args line = split_loop false false [] line

abbrev pub Parts : Type 0
Parts = Str × Str × List Str

-- `base = args[0]` panics on a line without arguments: `none`.
unfoldable pub parts_of : Str → List Str → Option Parts
parts_of prefix [] = none
parts_of prefix (base ∷ args) = some (prefix, base, args)

unfoldable pub drop_two : Str → Str
drop_two (a ∷ b ∷ rest) = rest
drop_two s = []

unfoldable pub split_command : Str → Option Parts
unfolding split_args parts_of drop_two has_prefix
split_command line =
    if has_prefix line (codes "p ")
    then parts_of (codes "p") (split_args (drop_two line))
    else parts_of [] (split_args line)

-- `l.Line += " " + a` for each argument.
unfoldable pub add_args : Str → List Str → Str
add_args line [] = line
add_args line (a ∷ args) = add_args (line ++ 32 ∷ a) args

unfoldable pub prefix_line : Str → Str
prefix_line [] = []
prefix_line (c ∷ cs) = (c ∷ cs) ++ 32 ∷ []

unfoldable pub replaced : Option Parts → List Str → Option Str
unfolding prefix_line add_args
replaced none args = none
replaced (some (prefix, base, old)) args = some (add_args (prefix_line prefix ++ base) args)

unfoldable pub replace_args : Str → List Str → Option Str
unfolding replaced
replace_args line args = replaced (split_command line) args
