-- ===== src/CommandLine/Samples.antt =====
-- Command lines from the documentation, and the theorems on them.
use test.Base.{ℕ, ◌==◌, arith, inr, false, ◌≡◌, refl, inl, [], ◌∷◌, some, Str, codes}
use test.CommandLine.{scan, split_args, split_command, replace_args}
use test.CommandLine.Join.{Covers, split_args-Covers}
use test.CommandLine.Words.{Text, done, plain, quote, IsWord, split_args-join}
use test.CommandLine.Replace.{split_command-replace_args}

abbrev quoted : Str
quoted = codes "p /testbin/argtest \"a b\" c "

split_quoted :
    split_args quoted ≡ codes "p" ∷ codes "/testbin/argtest" ∷ codes "\"a b\"" ∷ codes "c" ∷ []
unfolding split_args scan
split_quoted = refl

split_double_space : split_args (codes "a  b") ≡ codes "a" ∷ [] ∷ codes "b" ∷ []
unfolding split_args scan
split_double_space = refl

split_args-Covers_example : Covers (split_args quoted) quoted
split_args-Covers_example = split_args-Covers quoted

-- A byte that needs no care.
simple :
    (c : ℕ) {s : Str}
    → (c == b'"') ≡ false
    → (c == 92) ≡ false
    → (c == b' ') ≡ false
    → Text false s
    → Text false (c ∷ s)
simple c a b n t = plain (ground arith) (ground arith) (inr (ground arith)) t

add-IsWord : IsWord (codes "add")
add-IsWord = (
  (λ e. cc e),
  simple b'a' refl refl refl (simple b'd' refl refl refl (simple b'd' refl refl refl done)),
)

seven-IsWord : IsWord (codes "7")
seven-IsWord = ((λ e. cc e), simple b'7' refl refl refl done)

-- "a b", with its quotes.
spaced-IsWord : IsWord (codes "\"a b\"")
spaced-IsWord = (
  (λ e. cc e),
  quote (
      plain (ground arith) (ground arith) (inl refl) (
        plain (ground arith) (ground arith) (inl refl)
          (plain (ground arith) (ground arith) (inl refl) (quote done)))),
)

split_args-join_example :
    split_args (codes "add \"a b\" 7") ≡ codes "add" ∷ codes "\"a b\"" ∷ codes "7" ∷ []
split_args-join_example =
    split_args-join (codes "add") (codes "\"a b\"" ∷ codes "7" ∷ []) add-IsWord
      (spaced-IsWord, (seven-IsWord, tt))

split_command-replace_args_example :
    (line' : Str) × (replace_args (codes "p add 1 2 3") (codes "7" ∷ []) ≡ some line')
    × (split_command line' ≡ some (codes "p", codes "add", codes "7" ∷ []))
unfolding split_command scan
split_command-replace_args_example =
    split_command-replace_args (codes "p add 1 2 3") (codes "p") (codes "add")
      (codes "1" ∷ codes "2" ∷ codes "3" ∷ []) (codes "7" ∷ []) refl add-IsWord (seven-IsWord, tt)
      (inl (λ e. cc e))
