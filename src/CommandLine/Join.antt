-- ===== src/CommandLine/Join.antt =====
-- Splitting loses nothing: the arguments joined by spaces are the line.
use mathlib.Core.List.{append-nil, append_assoc}
use test.Base.{
  ℕ, ◌≡◌, refl, sym, subst, ap, ◌⊎◌, inl, inr, Bool, true, false, List, [], ◌∷◌, ◌++◌, Str, arith,
  Bool-cases,
}
use test.CommandLine.{scan, last_arg, split_loop, split_args}

-- The arguments with one space between each two.
abbrev pub join : List Str → Str
join [] = []
join (a ∷ []) = a
join (a ∷ b ∷ args) = a ++ 32 ∷ join (b ∷ args)

-- A split of `line`: all of it, or all but a space at the end. Only the empty line has no argument.
abbrev pub Covers : List Str → Str → Type 0
Covers [] line = line ≡ []
Covers (a ∷ args) line = (join (a ∷ args) ≡ line) ⊎ (join (a ∷ args) ++ 32 ∷ [] ≡ line)

cut_is_space : (q e : Bool) (c : ℕ) → (scan q e c).2 ≡ true → c ≡ 32
unfolding scan
cut_is_space q e c h = ground arith

-- A cut in front of a split.
Covers-cut :
    (cur : Str) (args : List Str) (rest : Str)
    → Covers args rest
    → Covers (cur ∷ args) (cur ++ 32 ∷ rest)
Covers-cut cur [] rest e = inr (rw e)
Covers-cut cur (a ∷ args) rest (inl e) = inl (rw e)
Covers-cut cur (a ∷ args) rest (inr e) = inr (rw append_assoc (ap (λ (x : Str). cur ++ 32 ∷ x) e))

split_loop-Covers : (q e : Bool) (cur rest : Str) → Covers (split_loop q e cur rest) (cur ++ rest)
unfolding split_loop last_arg
split_loop-Covers q e [] [] = refl
split_loop-Covers q e (c ∷ cur) [] = inl (sym (append-nil (c ∷ cur)))
split_loop-Covers q e cur (c ∷ rest) = elim (Bool-cases (scan q e c).2) [
  | inl h ↦
      let args = split_loop (scan q e c).0 (scan q e c).1 [] rest in
      let ih = split_loop-Covers (scan q e c).0 (scan q e c).1 [] rest in
      rw h (
        subst (λ x. Covers (cur ∷ args) (cur ++ x ∷ rest)) (sym (cut_is_space q e c h))
          (Covers-cut cur args rest ih))
  | inr h ↦
      let ih = split_loop-Covers (scan q e c).0 (scan q e c).1 (cur ++ c ∷ []) rest in
      rw h (rw append_assoc at ih)
]

-- Joining the arguments of a line by spaces gives the line back, but for one space at its end.
pub split_args-Covers : (line : Str) → Covers (split_args line) line
unfolding split_args
split_args-Covers line = split_loop-Covers false false [] line
