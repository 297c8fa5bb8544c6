-- ===== src/InitCommands/Samples.antt =====
-- A test that runs a program in the shell and then a kernel command.
use test.Base.{
  ◌≡◌, refl, Bool, true, false, List, [], ◌∷◌, ◌++◌, Option, none, some, Str, codes, str_eq,
  has_prefix,
}
use test.InitCommands.{
  NewCommand, Init, ok, error, premature_exit, CommandConf, kernel_conf, shell_conf,
}
use test.InitCommands.Closing.{Closed}
use test.InitCommands.Content.{init_commands, init_commands-Closed}

program : Unit {0}
unfolding init_commands str_eq has_prefix
program = tt

abbrev command : Str → Bool → Option Str → NewCommand
command line user prompt = record { line = line; user = user; prompt = prompt }

-- The second line is shorthand for two.
abbrev content : Str
content = codes "$ /testbin/forktest" ++ 10 ∷ codes "2xkhu" ++ 10 ∷ []

abbrev commands : List NewCommand
commands =
    command (codes "boot") false (some kernel_conf.prompt)
    ∷ command (codes "s") true (some shell_conf.prompt)
    ∷ command (codes "/testbin/forktest") true (some shell_conf.prompt)
    ∷ command (codes "exit") true (some kernel_conf.prompt)
    ∷ command (codes "khu") false (some kernel_conf.prompt)
    ∷ command (codes "khu") false (some kernel_conf.prompt)
    ∷ command (codes "q") false none
    ∷ []

expanded : init_commands [] content ≡ ok commands
unfolding program
expanded = refl

-- What comes after the shutdown is an error.
after_shutdown : init_commands [] (codes "q" ++ 10 ∷ codes "|khu") ≡ error premature_exit
unfolding program
after_shutdown = refl

init_commands-Closed_example : Closed commands
unfolding program
init_commands-Closed_example = init_commands-Closed [] content commands refl

abbrev nested : CommandConf
nested = record {
  prefix = codes "!";
  prompt = codes "! ";
  start = codes "$ /bin/sub";
  end = codes "quit";
}

abbrev command_lines : List NewCommand → List Str
command_lines [] = []
command_lines (c ∷ cs) = c.line ∷ command_lines cs

abbrev lines_of : Init (List NewCommand) → List Str
lines_of (error e) = []
lines_of (ok cs) = command_lines cs

-- Back from a configuration inside the shell, the shell is left and started again.
restarted_shell :
    lines_of (init_commands (nested ∷ []) (codes "! a" ++ 10 ∷ codes "$ b"))
    ≡ codes "boot"
      ∷ codes "s"
      ∷ codes "/bin/sub"
      ∷ codes "a"
      ∷ codes "quit"
      ∷ codes "exit"
      ∷ codes "s"
      ∷ codes "b"
      ∷ codes "exit"
      ∷ codes "q"
      ∷ []
unfolding program
restarted_shell = refl
