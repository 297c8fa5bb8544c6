-- ===== src/Grading/Points.antt =====
-- What an evaluated command earns.
use test.Base.{
  ℕ, ◌^◌, ◌≡◌, ◌≤◌, ◌<◌, refl, subst, inl, inr, Bool, arith, Option, some, Str, Option-cases,
}
use test.Grading.{KeyMap, Command, correct, command_id, credit, pass, fail, award, part, evaluate}
use mathlib.Core.Option.{some-injective}
use test.Grading.Evaluate.{Case, bad, shown, partly, evaluate-Case}

-- What the float32 expression is taken to do, below 2 ^ 24, where float32 is exact on integers.
pub record CreditLaws (credit_points : ℕ → ℕ → ℕ → ℕ) : Type 0 where
  pub whole : (a n : ℕ) → a < 2 ^ 24 → 0 < n → credit_points a n n ≡ a
  pub part_le : (a e t : ℕ) → a < 2 ^ 24 → 0 < t → e ≤ t → credit_points a e t ≤ a

-- The evaluated command `d` of `c`: all points if it is correct, and no more than all, if the partial
-- credit line claims no more than the whole.
abbrev pub Earns : KeyMap → Command → Command → Type 0
Earns key_map c d =
    (d.status ≡ correct → d.points_earned ≡ c.points_available)
    × (((id : Str)
          → command_id c.input ≡ some id
          → (credit key_map id c.output).0 ≤ (credit key_map id c.output).1)
        → d.points_earned ≤ c.points_available)

module _ (key_map : KeyMap) (credit_points : ℕ → ℕ → ℕ → ℕ) (laws : CreditLaws credit_points) where
  award-points :
      (c : Command) (e t : ℕ)
      → c.points_available < 2 ^ 24
      → ((award key_map credit_points c (e, t)).status ≡ correct
          → (award key_map credit_points c (e, t)).points_earned ≡ c.points_available)
        × (e ≤ t → (award key_map credit_points c (e, t)).points_earned ≤ c.points_available)
  unfolding award fail
  award-points c e t lt = (
    λ s. ground (arith, laws.whole c.points_available e lt),
    λ le. ground (arith, laws.part_le c.points_available e t lt),
  )

  -- A correct command earns all of its points. Any other earns no more than them, unless its
  -- partial credit line claims more than the whole. Below 2 ^ 24 points.
  pub evaluate-le-points :
      (eof : Bool) (c c' : Command)
      → c.points_available < 2 ^ 24
      → evaluate key_map credit_points eof c ≡ some c'
      → Earns key_map c c'
  unfolding fail pass part
  evaluate-le-points eof c c' lt h = go (evaluate-Case key_map credit_points eof c) h
    where
      go :
          {r : Option Command}
          → Case key_map credit_points eof c r
          → r ≡ some c'
          → Earns key_map c c'
      go (bad b) e = subst (Earns key_map c) (some-injective _ _ e) ((λ s. cc s), λ w. omega arith)
      go (shown g m) e =
          subst (Earns key_map c) (some-injective _ _ e) ((λ s. refl), λ w. omega arith)
      go (partly g m) e = elim (Option-cases (command_id c.input)) [
        | inl n ↦ cc (rw n at e)
        | inr (id, q) ↦
            let p = credit key_map id c.output in
            let (whole, most) = award-points c p.0 p.1 lt in
            subst (Earns key_map c) (some-injective _ _ (rw q at e)) (whole, λ w. most (w id q))
      ]
