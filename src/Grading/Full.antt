-- ===== src/Grading/Full.antt =====
-- All of the partial credit, with no mention of how the code finds it.
use test.Base.{
  ℕ, ◌^◌, ◌≡◌, ◌<◌, ◌⊎◌, if◌then◌else◌, ◌&&◌, refl, ap, inl, inr, List, [], ◌∷◌, Bool-cases, arith,
  some, Str, Option-cases, ltb,
}
use test.Grading.{
  OutputLine, KeyMap, Command, partial_credit, is_signed, credit, amounts, atoi, positive, number,
  command_id,
}
use test.Grading.Lines.{Signed, FirstOf, here, later, IsCredit, is_signed_iff}
use test.Grading.Credit.{partial_credit-IsCredit, IsCredit-partial_credit}

-- The first signed partial credit line has these two numbers.
abbrev pub Claims : KeyMap → Str → List OutputLine → Str × Str → Type 0
Claims key_map id output m =
    FirstOf (λ (o : OutputLine) (n : Str × Str). Signed key_map id o × IsCredit o.line n) output m

-- All of the partial credit: the first partial credit line that the command signs says n of n.
abbrev pub FullCredit : KeyMap → Command → Type 0
FullCredit key_map c =
    (id : Str) × (n : ℕ) × (m : Str × Str) × (command_id c.input ≡ some id)
    × (0 < n)
    × (n < 2 ^ 63)
    × Claims key_map id c.output m
    × (number 0 m.0 ≡ n)
    × (number 0 m.1 ≡ n)

module _ (key_map : KeyMap) (id : Str) where
  pub Claims-credit :
      (output : List OutputLine) (m : Str × Str)
      → Claims key_map id output m
      → credit key_map id output ≡ amounts m
  unfolding credit
  Claims-credit [] m x = elim x [ ]
  Claims-credit (o ∷ output) m (here (signed, l)) =
      rw ((is_signed_iff key_map id o).1 signed, IsCredit-partial_credit o.line m l) refl
  Claims-credit (o ∷ output) m (later other f) = elim (Bool-cases (is_signed key_map id o)) [
    | inl e ↦ elim (Option-cases (partial_credit o.line)) [
      | inl r ↦ rw (e, r) (Claims-credit output m f)
      | inr (k, r) ↦
          elim (other k ((is_signed_iff key_map id o).0 e, partial_credit-IsCredit o.line k r)) [ ]
    ]
    | inr e ↦ rw e (Claims-credit output m f)
  ]

  pub credit-Claims :
      (output : List OutputLine) (n : ℕ)
      → 0 < n
      → credit key_map id output ≡ (n, n)
      → (m : Str × Str) × Claims key_map id output m × (amounts m ≡ (n, n))
  unfolding credit
  credit-Claims [] n pos h = ground (arith, pos, ap (λ (p : ℕ × ℕ). p.0) h)
  credit-Claims (o ∷ output) n pos h = elim (Bool-cases (is_signed key_map id o)) [
    | inl e ↦ elim (Option-cases (partial_credit o.line)) [
      | inl r ↦
          let (m, f, a) = credit-Claims output n pos (rw (e, r) at h) in
          (m, later (λ k s. cc (IsCredit-partial_credit o.line k s.1, r)) f, a)
      | inr (k, r) ↦ (
        k,
        here ((is_signed_iff key_map id o).0 e, partial_credit-IsCredit o.line k r),
        rw (e, r) at h,
      )
    ]
    | inr e ↦
        let (m, f, a) = credit-Claims output n pos (rw e at h) in
        (m, later (λ k s. cc ((is_signed_iff key_map id o).1 s.0, e)) f, a)
  ]

atoi-cases :
    (s : Str) → ((positive (atoi s) ≡ number 0 s) × (number 0 s < 2 ^ 63)) ⊎ (positive (atoi s) ≡ 0)
unfolding atoi
atoi-cases s = elim (Bool-cases (ltb (number 0 s) (2 ^ 63))) [
  | inl e ↦ inl (rw e refl, ground (arith, e))
  | inr e ↦ inr (rw e refl)
]

pub amounts-number :
    (m : Str × Str) (n : ℕ)
    → 0 < n
    → amounts m ≡ (n, n)
    → (n < 2 ^ 63) × (number 0 m.0 ≡ n) × (number 0 m.1 ≡ n)
unfolding amounts
amounts-number m n pos h =
    let (e, t) = both (positive (atoi m.0)) (positive (atoi m.1)) h in
    let a = atoi-cases m.0 in let b = atoi-cases m.1 in (ground arith, ground arith, ground arith)
  where
    both :
        (a b : ℕ)
        → ◌≡◌ {A = ℕ × ℕ} (if ltb 0 a && ltb 0 b then (a, b) else (0, 0)) (n, n)
        → (a ≡ n) × (b ≡ n)
    both a b h = (ground arith, ground arith)

pub number-amounts :
    (m : Str × Str) (n : ℕ)
    → 0 < n
    → n < 2 ^ 63
    → number 0 m.0 ≡ n
    → number 0 m.1 ≡ n
    → amounts m ≡ (n, n)
unfolding amounts atoi
number-amounts m n pos lt x y = rw (x, y) (ground arith)
