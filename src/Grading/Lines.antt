-- ===== src/Grading/Lines.antt =====
-- What lines of output say, with no mention of how they are read: signatures, runs of digits, partial
-- credit lines, and the first line that says something.
use test.Base.{
  ℕ, ◌≡◌, ◌≢◌, ◌≤◌, ◌↔◌, ◌⊎◌, refl, subst, ap, inl, inr, true, false, List, [], ◌∷◌, ◌++◌,
  Bool-cases, arith, Str, str_eq_iff, codes, All, has_key, has_prefix, drop, length,
}
use test.Grading.{OutputLine, KeyMap, is_digit, span_digits, is_signed}

-- Signed by the key, where the key is known.
abbrev pub Signed : KeyMap → Str → OutputLine → Type 0
Signed key_map id o = (has_key id key_map ≡ false) ⊎ ((o.trusted ≡ true) × (o.key_name ≡ id))

-- The first line that says something says `a`.
pub data FirstOf {A : Type 0} (P : OutputLine → A → Type 0) : List OutputLine → A → Type 0 where
  here : {o : OutputLine} {os : List OutputLine} {a : A} → P o a → FirstOf P (o ∷ os) a
  later :
      {o : OutputLine} {os : List OutputLine} {a : A}
      → ((b : A) → P o b → ⊥)
      → FirstOf P os a
      → FirstOf P (o ∷ os) a

-- A number in decimal digits.
abbrev pub IsNumber : Str → Type 0
IsNumber s = (s ≢ []) × All (λ c. (b'0' ≤ c) × (c ≤ b'9')) s

-- "PARTIAL CREDIT x OF y" at the end of a line, in front of which no newline stands.
abbrev pub IsCredit : Str → Str × Str → Type 0
IsCredit line m =
    (before : Str) × (line ≡ before ++ (codes "PARTIAL CREDIT " ++ (m.0 ++ (codes " OF " ++ m.1))))
    × All (λ c. c ≢ 10) before
    × IsNumber m.0
    × IsNumber m.1

pub is_signed_iff :
    (key_map : KeyMap) (id : Str) (o : OutputLine)
    → (is_signed key_map id o ≡ true) ↔ Signed key_map id o
unfolding is_signed
is_signed_iff key_map id o = (
  λ h. elim (Bool-cases (has_key id key_map)) [
    | inr e ↦ inl e
    | inl e ↦ inr (ground arith, (str_eq_iff o.key_name id).0 (ground arith))
  ],
  λ s. elim s [
    | inl e ↦ ground arith
    | inr (t, k) ↦ rw (t, (str_eq_iff o.key_name id).1 k) (ground arith)
  ],
)

pub has_prefix-append : (p s : Str) → has_prefix (p ++ s) p ≡ true
unfolding has_prefix
has_prefix-append [] s = refl
has_prefix-append (c ∷ p) s = ground (arith, has_prefix-append p s)

pub drop-append : (p s : Str) → drop (length p) (p ++ s) ≡ s
drop-append [] s = refl
drop-append (c ∷ p) s = drop-append p s

pub append-drop : (p s : Str) → has_prefix s p ≡ true → s ≡ p ++ drop (length p) s
unfolding has_prefix
append-drop [] s h = refl
append-drop (c ∷ p) [] h = cc h
append-drop (c ∷ p) (d ∷ s) h = ground (arith, append-drop p s)

pub append_nil : (s : Str) → s ++ [] ≡ s
append_nil [] = refl
append_nil (c ∷ s) = ap (λ (t : Str). c ∷ t) (append_nil s)

digit : (c : ℕ) → (is_digit c ≡ true) ↔ ((b'0' ≤ c) × (c ≤ b'9'))
unfolding is_digit
digit c = ground arith

-- The run of digits and the rest are the text, and digits the run.
pub span_digits-Digits :
    (s : Str)
    → (s ≡ (span_digits s).0 ++ (span_digits s).1)
      × All (λ (c : ℕ). (b'0' ≤ c) × (c ≤ b'9')) (span_digits s).0
unfolding span_digits
span_digits-Digits [] = (refl, tt)
span_digits-Digits (c ∷ s) = elim (Bool-cases (is_digit c)) [
  | inl e ↦
      let (p, d) = span_digits-Digits s in rw e (ap (λ (t : Str). c ∷ t) p, ((digit c).0 e, d))
  | inr e ↦ rw e (refl, tt)
]

-- Where digits end at something else, the run is those digits.
pub span_digits-run :
    (ds rest : Str)
    → All (λ (c : ℕ). (b'0' ≤ c) × (c ≤ b'9')) ds
    → (span_digits rest ≡ ([], rest))
    → span_digits (ds ++ rest) ≡ (ds, rest)
unfolding span_digits
span_digits-run [] rest h e = e
span_digits-run (c ∷ ds) rest h e = rw ((digit c).1 h.0, span_digits-run ds rest h.1 e) refl

pub span_digits-whole :
    (ds : Str) → All (λ (c : ℕ). (b'0' ≤ c) × (c ≤ b'9')) ds → span_digits ds ≡ (ds, [])
unfolding span_digits
span_digits-whole ds h =
    subst (λ (t : Str). span_digits t ≡ (ds, [])) (append_nil ds) (span_digits-run ds [] h refl)
