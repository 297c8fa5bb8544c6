-- ===== src/InitCommands/Content.antt =====
-- conf.go: from the content of a test to its commands.
use test.Base.{
  ℕ, zero, suc, ◌≡◌, not, ◌&&◌, List, [], ◌∷◌, ◌++◌, Option, none, some, Str, codes, is_empty, drop,
  has_prefix, if◌then◌else◌,
}
use test.Grading.{span_digits, atoi}
use test.Templates.{split_lines}
use test.InitCommands.{
  CommandConf, NewCommand, Init, ok, error, bad_multiplier, trim, expand_commands,
}
use test.InitCommands.Closing.{Closed, expand_commands-Closed}

unfoldable pub repeat : ℕ → Str → List Str
repeat zero s = []
repeat (suc n) s = s ∷ repeat n s

unfoldable pub repeated : Str → Option ℕ → Init (List Str)
unfolding repeat
repeated s none = error bad_multiplier
repeated s (some n) = ok (repeat n s)

-- `^(\d+)x(.*)`, with the digits and what follows them.
unfoldable pub multiplied : Str → Str × Str → Init (List Str)
unfolding repeated atoi has_prefix
multiplied line (ds, rest) =
    if not (is_empty ds) && has_prefix rest (codes "x")
    then repeated (drop 1 rest) (atoi ds)
    else ok (line ∷ [])

-- `^\|(.*)` stands for khu before and after, and a number and an x for so many copies.
unfoldable pub simple_prefix : Str → Init (List Str)
unfolding multiplied span_digits has_prefix
simple_prefix line =
    if has_prefix line (codes "|")
    then ok (codes "khu" ∷ drop 1 line ∷ codes "khu" ∷ [])
    else multiplied line (span_digits line)

abbrev joined {ℓ} : {A : Type ℓ} → Init (List A) → Init (List A) → Init (List A)
joined (error e) r = error e
joined (ok xs) (error e) = error e
joined (ok xs) (ok ys) = ok (xs ++ ys)

unfoldable pub do_simple_prefixes : List Str → Init (List Str)
unfolding simple_prefix trim
do_simple_prefixes [] = ok []
do_simple_prefixes (l ∷ ls) = joined (simple_prefix (trim l)) (do_simple_prefixes ls)

abbrev pub then_init {ℓ κ} : {A : Type ℓ} {B : Type κ} → Init A → (A → Init B) → Init B
then_init (ok a) f = f a
then_init (error e) f = error e

-- Twice, for a prefix behind a prefix.
unfoldable pub simple_prefixes : List Str → Init (List Str)
unfolding do_simple_prefixes
simple_prefixes ls = then_init (do_simple_prefixes ls) do_simple_prefixes

-- After `checkCommandConf`.
unfoldable pub init_commands : List CommandConf → Str → Init (List NewCommand)
unfolding simple_prefixes expand_commands split_lines trim
init_commands confs content =
    then_init (simple_prefixes (split_lines (trim content))) (expand_commands confs)

then-Closed :
    (confs : List CommandConf) (r : Init (List Str)) (cs : List NewCommand)
    → then_init r (expand_commands confs) ≡ ok cs
    → Closed cs
then-Closed confs (error e) cs h = cc h
then-Closed confs (ok ls) cs h = expand_commands-Closed confs ls cs h

-- If the commands of a test are set up without an error, whatever prefixes, shells and configurations
-- the lines of the test use, then the last one is "q", the kernel's command that shuts sys161
-- down, and it is the only one that has no prompt to wait for.
pub init_commands-Closed :
    (confs : List CommandConf) (content : Str) (cs : List NewCommand)
    → init_commands confs content ≡ ok cs
    → Closed cs
unfolding init_commands
init_commands-Closed confs content cs h =
    then-Closed confs (simple_prefixes (split_lines (trim content))) cs h
