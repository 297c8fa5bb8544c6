-- ===== src/Templates.antt =====
-- commands.go: command templates, and the expected output that they give a command.
pub mod Termination
pub mod Lines
pub mod Meaning
mod Samples
use test.Base.{
  ℕ, zero, suc, ◌≡◌, Bool, true, false, not, ◌&&◌, ◌||◌, List, [], ◌∷◌, ◌++◌, Option, none, some,
  Str, codes, str_eq, has, add, is_empty, Dict, lookup, ltb, leb, ◌==◌, if◌then◌else◌,
}
use test.Grading.{ExpectedOutputLine, opt_no, opt_yes}

abbrev pub opt_maybe : Str
opt_maybe = codes "maybe"

pub record TemplOutputLine : Type 0 where
  pub text : Str
  pub trusted : Str
  pub external : Str

-- The timeout, a float32, is left out.
pub record CommandTemplate : Type 0 where
  pub name : Str
  pub output : List TemplOutputLine
  pub input : List Str
  pub panic : Str
  pub times_out : Str

pub data ExpandError : Type 0 where
  bad_template cycle : ExpandError

pub data Expanded {ℓ} (A : Type ℓ) : Type ℓ where
  ok : A → Expanded A
  error : ExpandError → Expanded A

-- The white space of ASCII.
unfoldable pub is_space : ℕ → Bool
is_space c = c == 32 || (leb 9 c && leb c 13)

-- `strings.TrimSpace` leaves nothing.
unfoldable pub is_blank : Str → Bool
unfolding is_space
is_blank [] = true
is_blank (c ∷ s) = is_space c && is_blank s

abbrev pub prepend : ℕ → List Str → List Str
prepend c [] = (c ∷ []) ∷ []
prepend c (l ∷ ls) = (c ∷ l) ∷ ls

-- `strings.Split` at newlines.
unfoldable pub split_lines : Str → List Str
split_lines [] = [] ∷ []
split_lines (c ∷ s) = let rest = split_lines s in if c == 10 then [] ∷ rest else prepend c rest

unfoldable pub keep_lines : List Str → List Str
unfolding is_blank
keep_lines [] = []
keep_lines (l ∷ ls) = let rest = keep_lines ls in if is_blank l then rest else l ∷ rest

abbrev pub join {ℓ} : {A : Type ℓ} → Expanded (List A) → Expanded (List A) → Expanded (List A)
join (error e) r = error e
join (ok xs) (error e) = error e
join (ok xs) (ok ys) = ok (xs ++ ys)

unfoldable pub default_option : Str → Str
default_option s = if not (str_eq s opt_maybe) && not (str_eq s opt_yes) then opt_no else s

unfoldable pub default_line : TemplOutputLine → TemplOutputLine
default_line l = record l {
  trusted = if not (str_eq l.trusted (codes "false")) then codes "true" else l.trusted;
  external = if not (str_eq l.external (codes "true")) then codes "false" else l.external;
}

unfoldable pub default_lines : List TemplOutputLine → List TemplOutputLine
unfolding default_line
default_lines [] = []
default_lines (l ∷ ls) = default_line l ∷ default_lines ls

-- Nothing is expected of a command with one blank line, and success of one without a line.
unfoldable pub default_output : Str → List TemplOutputLine → List TemplOutputLine
unfolding default_lines is_blank
default_output name [] =
    record { text = name ++ codes ": SUCCESS"; trusted = codes "true"; external = codes "false" }
    ∷ []
default_output name (l ∷ []) = if is_blank l.text then [] else default_line l ∷ []
default_output name (l ∷ k ∷ ls) = default_lines (l ∷ k ∷ ls)

unfoldable pub fix_template : CommandTemplate → CommandTemplate
unfolding default_option default_output
fix_template t = record t {
  panic = default_option t.panic;
  times_out = default_option t.times_out;
  output = default_output t.name t.output;
}

-- `render t args` is what text/template does: `none` where the template does not parse, and else what
-- was written to the buffer, since the source does not look at the error of `Execute`.
module _ (render : Str → List Str → Option Str) where
  unfoldable pub lines_of : Option Str → Expanded (List Str)
  unfolding split_lines keep_lines
  lines_of none = error bad_template
  lines_of (some s) = ok (keep_lines (split_lines s))

  unfoldable pub expand_line : Str → List Str → Expanded (List Str)
  unfolding lines_of
  expand_line t args = lines_of (render t args)

  unfoldable pub expected_line : Str → TemplOutputLine → Str → ExpectedOutputLine
  expected_line id l s =
      if str_eq l.trusted (codes "true")
      then record { text = s; trusted = true; key_name = id }
      else record { text = s; trusted = false; key_name = [] }

  unfoldable pub expected_lines : Str → TemplOutputLine → List Str → List ExpectedOutputLine
  unfolding expected_line
  expected_lines id l [] = []
  expected_lines id l (s ∷ ss) = expected_line id l s ∷ expected_lines id l ss

  unfoldable pub own_line :
      Str → TemplOutputLine → Expanded (List Str) → Expanded (List ExpectedOutputLine)
  unfolding expected_lines
  own_line id l (error e) = error e
  own_line id l (ok ss) = ok (expected_lines id l ss)

  module _ (commands : Dict CommandTemplate) (args : List Str) where
    -- A command that is not known gives no lines. `expand` is the recursive call.
    unfoldable pub external_line :
        (Str → CommandTemplate → Option (Expanded (List ExpectedOutputLine)))
        → Str
        → Option CommandTemplate
        → Option (Expanded (List ExpectedOutputLine))
    external_line expand text none = some (ok [])
    external_line expand text (some t) = expand text t

    abbrev join_later :
        Option (Expanded (List ExpectedOutputLine))
        → Option (Expanded (List ExpectedOutputLine))
        → Option (Expanded (List ExpectedOutputLine))
    join_later none r = none
    join_later (some (error e)) r = some (error e)
    join_later (some (ok xs)) none = none
    join_later (some (ok xs)) (some r) = some (join (ok xs) r)

    -- The loop over the template's lines.
    unfoldable pub expand_lines :
        (Str → CommandTemplate → Option (Expanded (List ExpectedOutputLine)))
        → Str
        → List TemplOutputLine
        → Option (Expanded (List ExpectedOutputLine))
    unfolding own_line expand_line external_line
    expand_lines expand id [] = some (ok [])
    expand_lines expand id (l ∷ ls) =
        join_later
          (if str_eq l.external (codes "true")
            then external_line expand l.text (lookup l.text commands)
            else some (own_line id l (expand_line l.text args)))
          (expand_lines expand id ls)

    -- `processed` are the ids on the way here. `none`: out of fuel.
    unfoldable pub expand_output :
        ℕ → List Str → Str → CommandTemplate → Option (Expanded (List ExpectedOutputLine))
    unfolding expand_lines
    expand_output zero processed id t = none
    expand_output (suc fuel) processed id t =
        if has id processed
        then some (error cycle)
        else expand_lines (expand_output fuel (id ∷ processed)) id t.output
