-- ===== src/Grading/Evaluate.antt =====
-- When a command is correct, and what it earns.
use test.Base.{
  ℕ, ◌≡◌, ◌≢◌, refl, ◌⊎◌, inl, inr, Bool, true, false, ◌||◌, List, [], ◌∷◌, Bool-cases, is_empty,
  Option, some,
}
use test.Grading.{
  OutputLine, ExpectedOutputLine, KeyMap, Command, opt_no, opt_yes, command_id, ended_badly, pass,
  fail, unmatched, part, evaluate,
}
use test.Grading.Match.{Shows}
use test.Grading.Full.{FullCredit}

-- The command ended in a way that its options allow. `eof`: sys161 went down.
pub record Ended (eof : Bool) (c : Command) : Type 0 where
  pub in_time : c.times_out ≡ opt_no → c.timed_out ≡ false
  pub panicked : eof ≡ true → (c.panic ≢ opt_no) ⊎ ((c.times_out ≢ opt_no) × (c.timed_out ≡ true))
  pub must_panic : c.panic ≡ opt_yes → eof ≡ true
  pub must_time_out : c.times_out ≡ opt_yes → c.timed_out ≡ true

-- What makes a command correct. `Ended`, `Shows` and `FullCredit` say nothing of how it is found out.
pub record Correct (key_map : KeyMap) (eof : Bool) (c : Command) : Type 0 where
  pub ended : Ended eof c
  pub shown : Shows key_map c.expected c.output ⊎ FullCredit key_map c

module _ (key_map : KeyMap) (credit_points : ℕ → ℕ → ℕ → ℕ) where
  nothing_expected :
      (es : List ExpectedOutputLine) (output : List OutputLine)
      → (is_empty es || is_empty (unmatched key_map es output))
        ≡ is_empty (unmatched key_map es output)
  unfolding unmatched
  nothing_expected [] output = refl
  nothing_expected (e ∷ es) output = refl

  -- The cases of `evaluate`, each with its result.
  pub data Case (eof : Bool) (c : Command) : Option Command → Type 0 where
    bad : ended_badly eof c ≡ true → Case eof c (some (fail c))
    shown :
        ended_badly eof c ≡ false
        → is_empty (unmatched key_map c.expected c.output) ≡ true
        → Case eof c (some (pass c))
    partly :
        ended_badly eof c ≡ false
        → is_empty (unmatched key_map c.expected c.output) ≡ false
        → Case eof c (part key_map credit_points c (command_id c.input))

  pub evaluate-Case : (eof : Bool) (c : Command) → Case eof c (evaluate key_map credit_points eof c)
  unfolding evaluate
  evaluate-Case eof c = elim (Bool-cases (ended_badly eof c)) [
    | inl h ↦ rw h (bad h)
    | inr h ↦ elim (Bool-cases (is_empty (unmatched key_map c.expected c.output))) [
      | inl m ↦ rw (h, nothing_expected c.expected c.output, m) (shown h m)
      | inr m ↦ rw (h, nothing_expected c.expected c.output, m) (partly h m)
    ]
  ]
