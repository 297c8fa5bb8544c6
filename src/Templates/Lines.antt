-- ===== src/Templates/Lines.antt =====
-- The lines of a rendered text, and the expected lines that they give.
use test.Base.{
  ℕ, ◌≡◌, ◌≢◌, ◌↔◌, refl, ap, inl, inr, true, false, List, [], ◌∷◌, ◌++◌, All, Option, Str, codes,
  str_eq, str_eq_iff, Bool-cases, ◌==◌, ==_iff, arith,
}
use test.Grading.{ExpectedOutputLine}
use test.Templates.{
  TemplOutputLine, is_space, is_blank, prepend, split_lines, keep_lines, expected_line,
  expected_lines,
}

-- The text is these lines, with a newline between each and the next.
abbrev pub AreLines : Str → List Str → Type 0
AreLines s [] = ⊥
AreLines s (l ∷ []) = (s ≡ l) × All (λ c. c ≢ 10) l
AreLines s (l ∷ m ∷ ls) =
    (rest : Str) × (s ≡ l ++ 10 ∷ rest) × All (λ c. c ≢ 10) l × AreLines rest (m ∷ ls)

-- The expected line has this text, and the key of the command exactly if the template's line is
-- trusted.
pub record IsExpected (id : Str) (l : TemplOutputLine) (s : Str) (x : ExpectedOutputLine)
    : Type 0 where
  pub text : x.text ≡ s
  pub trusted : l.trusted ≡ codes "true" → (x.trusted ≡ true) × (x.key_name ≡ id)
  pub untrusted : l.trusted ≢ codes "true" → (x.trusted ≡ false) × (x.key_name ≡ [])

-- The lines without the blank ones, as expected lines.
pub data AreExpected (id : Str) (l : TemplOutputLine)
    : List Str → List ExpectedOutputLine → Type 0 where
  no_lines : AreExpected id l [] []
  blank :
      {s : Str} {ss : List Str} {xs : List ExpectedOutputLine}
      → All (λ c. is_space c ≡ true) s
      → AreExpected id l ss xs
      → AreExpected id l (s ∷ ss) xs
  line :
      {s : Str} {ss : List Str} {x : ExpectedOutputLine} {xs : List ExpectedOutputLine}
      → (All (λ c. is_space c ≡ true) s → ⊥)
      → IsExpected id l s x
      → AreExpected id l ss xs
      → AreExpected id l (s ∷ ss) (x ∷ xs)

prepend-AreLines :
    (c : ℕ) (s : Str) (ls : List Str) → c ≢ 10 → AreLines s ls → AreLines (c ∷ s) (prepend c ls)
prepend-AreLines c s [] n h = elim h [ ]
prepend-AreLines c s (l ∷ []) n (e, a) = (ap (λ (t : Str). c ∷ t) e, (n, a))
prepend-AreLines c s (l ∷ m ∷ ls) n (rest, e, a, h) = (rest, ap (λ (t : Str). c ∷ t) e, (n, a), h)

newline-AreLines :
    (c : ℕ) (s : Str) (ls : List Str) → c ≡ 10 → AreLines s ls → AreLines (c ∷ s) ([] ∷ ls)
newline-AreLines c s [] e h = elim h [ ]
newline-AreLines c s (l ∷ ls) e h = (s, ap (λ d. d ∷ s) e, tt, h)

pub split_lines-AreLines : (s : Str) → AreLines s (split_lines s)
unfolding split_lines
split_lines-AreLines [] = (refl, tt)
split_lines-AreLines (c ∷ s) = elim (Bool-cases (c == 10)) [
  | inl e ↦ rw e (newline-AreLines c s (split_lines s) ((==_iff c 10).0 e) (split_lines-AreLines s))
  | inr e ↦ rw e (
      prepend-AreLines c s (split_lines s) (λ h. cc ((==_iff c 10).1 h, e))
        (split_lines-AreLines s))
]

is_blank_iff : (s : Str) → (is_blank s ≡ true) ↔ All (λ c. is_space c ≡ true) s
unfolding is_blank
is_blank_iff [] = (λ h. tt, λ h. refl)
is_blank_iff (c ∷ s) =
    let (to, from) = is_blank_iff s in
    (λ h. (ground arith, to (ground arith)), λ h. ground (arith, h.0, from h.1))

expected_line-IsExpected :
    (render : Str → List Str → Option Str) (id : Str) (l : TemplOutputLine) (s : Str)
    → IsExpected id l s (expected_line render id l s)
unfolding expected_line
expected_line-IsExpected render id l s = elim (Bool-cases (str_eq l.trusted (codes "true"))) [
  | inl e ↦ rw e record {
    text = refl;
    trusted = λ h. (refl, refl);
    untrusted = λ h. elim (h ((str_eq_iff l.trusted (codes "true")).0 e)) [ ];
  }
  | inr e ↦ rw e record {
    text = refl;
    trusted = λ h. cc ((str_eq_iff l.trusted (codes "true")).1 h, e);
    untrusted = λ h. (refl, refl);
  }
]

pub expected_lines-AreExpected :
    (render : Str → List Str → Option Str) (id : Str) (l : TemplOutputLine) (ss : List Str)
    → AreExpected id l ss (expected_lines render id l (keep_lines ss))
unfolding expected_lines keep_lines
expected_lines-AreExpected render id l [] = no_lines
expected_lines-AreExpected render id l (s ∷ ss) = elim (Bool-cases (is_blank s)) [
  | inl e ↦ rw e (blank ((is_blank_iff s).0 e) (expected_lines-AreExpected render id l ss))
  | inr e ↦ rw e (
      line (λ h. cc ((is_blank_iff s).1 h, e)) (expected_line-IsExpected render id l s)
        (expected_lines-AreExpected render id l ss))
]
