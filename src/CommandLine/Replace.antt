-- ===== src/CommandLine/Replace.antt =====
-- Replacing the arguments of a command line, and splitting it again.
use mathlib.Core.List.{append_assoc}
use test.Base.{
  ℕ, ◌≡◌, ◌≢◌, refl, ◌∙◌, ap, ◌⊎◌, inl, inr, true, false, ◌&&◌, List, [], ◌∷◌, ◌++◌, some, Str,
  arith, Bool-cases, ◌==◌, ==_iff, All, has_prefix, codes,
}
use test.CommandLine.{scan, parts_of, split_command, add_args, prefix_line, replaced, replace_args}
use test.CommandLine.Join.{join}
use test.CommandLine.Words.{IsWord, Text-Uncut, split_args-join}

add_args-join : (w : Str) (ws : List Str) → add_args w ws ≡ join (w ∷ ws)
unfolding add_args
add_args-join w [] = refl
add_args-join w (x ∷ ws) = add_args-join (w ++ 32 ∷ x) ws ∙ shift ws
  where
    shift : (l : List Str) → join ((w ++ 32 ∷ x) ∷ l) ≡ w ++ 32 ∷ join (x ∷ l)
    shift [] = refl
    shift (y ∷ l) = append_assoc w (32 ∷ x) (32 ∷ join (y ∷ l))

add_args-append : (x y : Str) (args : List Str) → add_args (x ++ y) args ≡ x ++ add_args y args
unfolding add_args
add_args-append x y [] = refl
add_args-append x y (a ∷ args) = rw append_assoc (add_args-append x (y ++ 32 ∷ a) args)

split_command-plain :
    (w : Str) (ws : List Str)
    → IsWord w
    → All IsWord ws
    → has_prefix (join (w ∷ ws)) (codes "p ") ≡ false
    → split_command (join (w ∷ ws)) ≡ some ([], w, ws)
unfolding split_command
split_command-plain w ws h hs n = rw (n, split_args-join w ws h hs)

split_command-p :
    (w : Str) (ws : List Str)
    → IsWord w
    → All IsWord ws
    → split_command (codes "p " ++ join (w ∷ ws)) ≡ some (codes "p", w, ws)
unfolding split_command
split_command-p w ws h hs = rw (split_args-join w ws h hs)

not_p_space :
    (c d : ℕ)
    → (scan false false c).2 ≡ false
    → (scan (scan false false c).0 (scan false false c).1 d).2 ≡ false
    → (c == 112 && (d == 32 && true)) ≡ false
unfolding scan
not_p_space c d h k = ground arith

-- A word other than "p" does not begin a line with the prefix "p".
no_prefix :
    (w : Str) (ws : List Str)
    → IsWord w
    → w ≢ codes "p"
    → has_prefix (join (w ∷ ws)) (codes "p ") ≡ false
unfolding has_prefix
no_prefix [] ws h ne = absurd (h.0 refl)
no_prefix (c ∷ []) [] h ne = ground arith
no_prefix (c ∷ []) (x ∷ ws) h ne = elim (Bool-cases (c == 112)) [
  | inl e ↦ absurd (ne (ap (λ (n : ℕ). n ∷ []) ((==_iff c 112).0 e)))
  | inr e ↦ rw e
]
no_prefix (c ∷ d ∷ w) [] h ne =
    let u = Text-Uncut false (c ∷ d ∷ w) h.1 in not_p_space c d u.0 u.1.0
no_prefix (c ∷ d ∷ w) (x ∷ ws) h ne =
    let u = Text-Uncut false (c ∷ d ∷ w) h.1 in not_p_space c d u.0 u.1.0

parts_prefix :
    (p : Str) (l : List Str) {prefix base : Str} {old : List Str}
    → parts_of p l ≡ some (prefix, base, old)
    → prefix ≡ p
unfolding parts_of
parts_prefix p [] h = cc
parts_prefix p (b ∷ l) h = ground arith

split_prefix :
    (line : Str) {prefix base : Str} {old : List Str}
    → split_command line ≡ some (prefix, base, old)
    → (prefix ≡ []) ⊎ (prefix ≡ codes "p")
unfolding split_command
split_prefix line h = elim (Bool-cases (has_prefix line (codes "p "))) [
  | inl e ↦ inr (parts_prefix (codes "p") _ (rw e at h))
  | inr e ↦ inl (parts_prefix [] _ (rw e at h))
]

-- Replacing the arguments of a line keeps its prefix and its command, and the new arguments are
-- the ones that a later split finds: where they and the command are words, and the command is not
-- a bare "p", which would be taken for the prefix.
pub split_command-replace_args :
    (line prefix base : Str) (old args : List Str)
    → split_command line ≡ some (prefix, base, old)
    → IsWord base
    → All IsWord args
    → (prefix ≢ []) ⊎ (base ≢ codes "p")
    → (line' : Str) × (replace_args line args ≡ some line')
      × (split_command line' ≡ some (prefix, base, args))
unfolding replace_args prefix_line
split_command-replace_args line prefix base old args h hb ha side = elim (split_prefix line h) [
  | inl plain ↦ (
    join (base ∷ args),
    rw (h, replaced, plain, prefix_line, add_args-join base args),
    rw plain (split_command-plain base args hb ha (no_prefix base args hb (not_p plain side))),
  )
  | inr p ↦ (
    codes "p " ++ join (base ∷ args),
    rw (h, replaced, p, prefix_line)
        (ap some (
          add_args-append (codes "p ") base args
          ∙ ap (λ (l : Str). codes "p " ++ l) (add_args-join base args))),
    rw p (split_command-p base args hb ha),
  )
]
  where
    not_p : prefix ≡ [] → (prefix ≢ []) ⊎ (base ≢ codes "p") → base ≢ codes "p"
    not_p e (inl n) = absurd (n e)
    not_p e (inr n) = n
