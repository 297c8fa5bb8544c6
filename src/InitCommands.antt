-- ===== src/InitCommands.antt =====
-- conf.go: how the commands of a test are expanded into those that are sent to sys161.
pub mod Closing
pub mod Content
mod Samples
use test.Base.{
  ℕ, zero, suc, ◌≡◌, Bool, true, false, not, ◌&&◌, ◌||◌, List, [], ◌∷◌, ◌++◌, Option, none, some,
  Str, codes, str_eq, is_empty, drop, has_prefix, ◌==◌, if◌then◌else◌,
}
use test.Templates.{is_space}

pub record CommandConf : Type 0 where
  pub prefix : Str
  pub prompt : Str
  pub start : Str
  pub end : Str

-- A configuration as a pointer: whether it is the one to `KERNEL_COMMAND_CONF`. Every other pointer
-- that the loop compares is a fresh one.
pub record ConfPointer : Type 0 where
  pub conf : CommandConf
  pub is_kernel : Bool

-- `prompt`: none is the nil pattern.
pub record NewCommand : Type 0 where
  pub line : Str
  pub user : Bool
  pub prompt : Option Str

pub data InitError : Type 0 where
  infinite_loop premature_exit empty_command invalid_prefix bad_multiplier : InitError

pub data Init {ℓ} (A : Type ℓ) : Type ℓ where
  ok : A → Init A
  error : InitError → Init A

abbrev pub kernel_conf : CommandConf
kernel_conf = record {
  prefix = [];
  prompt = codes "OS/161 kernel [? for menu]: ";
  start = [];
  end = codes "q";
}

abbrev pub shell_conf : CommandConf
shell_conf = record {
  prefix = codes "$";
  prompt = codes "OS/161$ ";
  start = codes "s";
  end = codes "exit";
}

unfoldable pub trim_left : Str → Str
unfolding is_space
trim_left [] = []
trim_left (c ∷ s) = let rest = trim_left s in if is_space c then rest else c ∷ s

unfoldable pub trim_right : Str → Str
unfolding is_space
trim_right [] = []
trim_right (c ∷ s) = let rest = trim_right s in if is_empty rest && is_space c then [] else c ∷ rest

-- `strings.TrimSpace`, on ASCII.
unfoldable pub trim : Str → Str
unfolding trim_left trim_right
trim s = trim_left (trim_right s)

unfoldable pub prefixes : Str
prefixes = codes "!@#$%^&*"

unfoldable pub is_prefix : ℕ → Str → Bool
is_prefix c [] = false
is_prefix c (d ∷ s) = c == d || is_prefix c s

-- `^([!@#$%^&*]) `: the match, and the rest of the line after the match's first byte.
unfoldable pub prefix_of : Str → Str
unfolding is_prefix prefixes
prefix_of [] = []
prefix_of (c ∷ []) = []
prefix_of (c ∷ d ∷ s) = if is_prefix c prefixes && d == 32 then c ∷ [] else []

unfoldable pub split_prefix : Str → Str × Str
unfolding prefix_of trim
split_prefix line =
    if is_empty (prefix_of (trim line))
    then ([], trim line)
    else (prefix_of (trim line), trim (drop 1 line))

unfoldable pub find_conf : Str → List CommandConf → Option ConfPointer
find_conf p [] = none
find_conf p (c ∷ cs) =
    let rest = find_conf p cs in
    if str_eq c.prefix p then some (record { conf = c; is_kernel = false }) else rest

unfoldable pub conf_eq : CommandConf → CommandConf → Bool
conf_eq a b =
    str_eq a.prefix b.prefix
    && (str_eq a.prompt b.prompt && (str_eq a.start b.start && str_eq a.end b.end))

abbrev pub kernel_pointer : ConfPointer
kernel_pointer = record { conf = kernel_conf; is_kernel = true }

unfoldable pub has_kernel : List ConfPointer → Bool
has_kernel [] = false
has_kernel (p ∷ ps) = p.is_kernel || has_kernel ps

unfoldable pub find_start : Str → List CommandConf → Option CommandConf
find_start line [] = none
find_start line (c ∷ cs) =
    let rest = find_start line cs in if str_eq c.start line then some c else rest

module _ (confs : List CommandConf) where
  unfoldable pub conf_from_line : Str × Str → Option ConfPointer
  unfolding find_conf
  conf_from_line (p, line) =
      if is_empty p
      then some kernel_pointer
      else if str_eq p (codes "$")
      then some (record { conf = shell_conf; is_kernel = false })
      else find_conf p confs

  -- The configuration that the command starts, if any.
  unfoldable pub started : CommandConf → Str → Option CommandConf
  unfolding find_start trim
  started current line =
      find_start (trim (current.prefix ++ 32 ∷ line)) (confs ++ shell_conf ∷ kernel_conf ∷ [])

  unfoldable pub exit_line : CommandConf → Str
  unfolding trim
  exit_line c = trim (c.prefix ++ 32 ∷ c.end)

  abbrev prompt_of : List ConfPointer → Option Str
  prompt_of [] = none
  prompt_of (p ∷ ps) = some p.conf.prompt

  unfoldable pub new_command : CommandConf → Str → List ConfPointer → NewCommand
  unfolding has_prefix
  new_command kind line stack = record {
    line = line;
    user = not (is_empty kind.prefix) || has_prefix line (codes "p ");
    prompt = prompt_of stack;
  }

  -- The command and the stack after it, where the command does not exit its configuration.
  unfoldable pub enter :
      ConfPointer → List ConfPointer → Str → Option CommandConf → NewCommand × List ConfPointer
  unfolding new_command
  enter current stack line none = (new_command current.conf line (current ∷ stack), current ∷ stack)
  enter current stack line (some c) =
      let stack' = record { conf = c; is_kernel = false } ∷ current ∷ stack in
      (new_command c line stack', stack')

  -- The command of this line, which belongs to the current configuration.
  unfoldable pub command_step : ConfPointer → List ConfPointer → Str → NewCommand × List ConfPointer
  unfolding enter started
  command_step current stack line =
      if str_eq line current.conf.end
      then (new_command current.conf line stack, stack)
      else enter current stack line (started current.conf line)

  -- The line to put in front, to get from the current configuration to another one.
  unfoldable pub switch_line : ConfPointer → List ConfPointer → ConfPointer → Str
  unfolding exit_line has_kernel
  switch_line current stack wanted =
      if wanted.is_kernel && has_kernel (current ∷ stack)
      then exit_line current.conf
      else wanted.conf.start

  abbrev pub put {ℓ} : {A : Type ℓ} → A → Init (List A) → Init (List A)
  put x (ok xs) = ok (x ∷ xs)
  put x (error e) = error e

  abbrev uncurried :
      (List ConfPointer → Init (List NewCommand))
      → NewCommand × List ConfPointer
      → Init (List NewCommand)
  uncurried rest (c, stack) = put c (rest stack)

  -- What to do with the first line, once its configuration was looked up. `rest` is the loop's next
  -- iteration.
  unfoldable pub with_conf :
      (List ConfPointer → List Str → Init (List NewCommand))
      → ConfPointer
      → List ConfPointer
      → Str
      → Str
      → List Str
      → Option ConfPointer
      → Init (List NewCommand)
  unfolding command_step switch_line conf_eq
  with_conf rest current stack line first lines none = error invalid_prefix
  with_conf rest current stack line first lines (some wanted) =
      if conf_eq current.conf wanted.conf
      then uncurried (λ stack'. rest stack' lines) (command_step current stack line)
      else rest (current ∷ stack) (switch_line current stack wanted ∷ first ∷ lines)

  unfoldable pub with_line :
      (List ConfPointer → List Str → Init (List NewCommand))
      → ConfPointer
      → List ConfPointer
      → Str
      → List Str
      → Init (List NewCommand)
  unfolding with_conf conf_from_line split_prefix trim
  with_line rest current stack first lines =
      if is_empty (trim first)
      then error empty_command
      else with_conf rest current stack (split_prefix (trim first)).1 first lines
          (conf_from_line (split_prefix (trim first)))

  -- The loop, with what is left of `MAX_EXPANSION_LOOPS`.
  unfoldable pub expand : ℕ → List ConfPointer → List Str → Init (List NewCommand)
  unfolding with_line exit_line
  expand zero stack lines = error infinite_loop
  expand (suc n) [] [] = ok []
  expand (suc n) [] (l ∷ ls) = error premature_exit
  expand (suc n) (current ∷ stack) [] = expand n (current ∷ stack) (exit_line current.conf ∷ [])
  expand (suc n) (current ∷ stack) (l ∷ ls) = with_line (expand n) current stack l ls

  abbrev boot : NewCommand
  boot = record { line = codes "boot"; user = false; prompt = some kernel_conf.prompt }

  -- From the lines after `simplePrefixes` on.
  unfoldable pub expand_commands : List Str → Init (List NewCommand)
  unfolding expand
  expand_commands lines = put boot (expand 1024 (kernel_pointer ∷ []) lines)
