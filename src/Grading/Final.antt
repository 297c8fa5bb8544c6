-- ===== src/Grading/Final.antt =====
-- What every evaluation leaves behind, and when there is one.
use test.Base.{
  ℕ, ◌≡◌, refl, subst, ◌⊎◌, inl, inr, Bool, Option, none, some, Option-cases, ltb, ◌==◌, ◌&&◌,
  Bool-cases,
}
use test.Grading.{
  KeyMap, Command, correct, incorrect, command_id, credit, pass, fail, award, part, evaluate,
}
use mathlib.Core.Option.{some-injective}
use test.Grading.Evaluate.{Case, bad, shown, partly, evaluate-Case}

-- The evaluated command `d` of `c` has a final status, and the same input and options.
pub record Final (c d : Command) : Type 0 where
  pub status : (d.status ≡ correct) ⊎ (d.status ≡ incorrect)
  pub input : d.input ≡ c.input
  pub has_prompt : d.has_prompt ≡ c.has_prompt
  pub panic : d.panic ≡ c.panic
  pub times_out : d.times_out ≡ c.times_out

module _ (key_map : KeyMap) (credit_points : ℕ → ℕ → ℕ → ℕ) where
  award-Final : (c : Command) (e t : ℕ) → Final c (award key_map credit_points c (e, t))
  unfolding award fail
  award-Final c e t = elim (Bool-cases (ltb 0 e && ltb 0 t)) [
    | inr h ↦ rw h record {
      status = inr refl;
      input = refl;
      has_prompt = refl;
      panic = refl;
      times_out = refl;
    }
    | inl h ↦ elim (Bool-cases (t == e)) [
      | inl g ↦
          rw (h, g)
            record {
              status = inl refl;
              input = refl;
              has_prompt = refl;
              panic = refl;
              times_out = refl;
            }
      | inr g ↦
          rw (h, g)
            record {
              status = inr refl;
              input = refl;
              has_prompt = refl;
              panic = refl;
              times_out = refl;
            }
    ]
  ]

  pub evaluate-Final :
      (eof : Bool) (c d : Command) → evaluate key_map credit_points eof c ≡ some d → Final c d
  unfolding fail pass part
  evaluate-Final eof c d h = go (evaluate-Case key_map credit_points eof c) h
    where
      go : {r : Option Command} → Case key_map credit_points eof c r → r ≡ some d → Final c d
      go (bad b) e = subst (Final c) (some-injective _ _ e) record {
        status = inr refl;
        input = refl;
        has_prompt = refl;
        panic = refl;
        times_out = refl;
      }
      go (shown g m) e = subst (Final c) (some-injective _ _ e) record {
        status = inl refl;
        input = refl;
        has_prompt = refl;
        panic = refl;
        times_out = refl;
      }
      go (partly g m) e = elim (Option-cases (command_id c.input)) [
        | inl n ↦ cc (rw n at e)
        | inr (id, q) ↦
            let p = credit key_map id c.output in
            subst (Final c) (some-injective _ _ (rw q at e)) (award-Final c p.0 p.1)
      ]

  -- Only a command line without a command makes the evaluation panic.
  pub evaluate-none :
      (eof : Bool) (c : Command)
      → evaluate key_map credit_points eof c ≡ none
      → command_id c.input ≡ none
  unfolding part
  evaluate-none eof c h = go (evaluate-Case key_map credit_points eof c) h
    where
      go :
          {r : Option Command}
          → Case key_map credit_points eof c r
          → r ≡ none
          → command_id c.input ≡ none
      go (bad b) e = cc e
      go (shown g m) e = cc e
      go (partly g m) e = elim (Option-cases (command_id c.input)) [
        | inl n ↦ n
        | inr (id, q) ↦ cc (rw q at e)
      ]
