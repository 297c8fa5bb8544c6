-- ===== src/Grading/Match.antt =====
-- The matching loop of `evaluate` against a relation on the two lists.
use test.Base.{◌≡◌, refl, ◌↔◌, inl, inr, true, false, List, [], ◌∷◌, Bool-cases, is_empty}
use test.Grading.{OutputLine, ExpectedOutputLine, KeyMap, accepts, unmatched}

-- The expected lines appear in the output, in their order, each in a line that is accepted for
-- it. Other lines may stand anywhere between.
pub data Shows (key_map : KeyMap) : List ExpectedOutputLine → List OutputLine → Type 0 where
  all : (output : List OutputLine) → Shows key_map [] output
  hit :
      {e : ExpectedOutputLine} {es : List ExpectedOutputLine} {o : OutputLine}
      {output : List OutputLine}
      → accepts key_map e o ≡ true
      → Shows key_map es output
      → Shows key_map (e ∷ es) (o ∷ output)
  pass_over :
      {es : List ExpectedOutputLine} {o : OutputLine} {output : List OutputLine}
      → Shows key_map es output
      → Shows key_map es (o ∷ output)

module _ (key_map : KeyMap) where
  -- Fewer expected lines are shown too.
  Shows-tail :
      {e : ExpectedOutputLine} {es : List ExpectedOutputLine} {output : List OutputLine}
      → Shows key_map (e ∷ es) output
      → Shows key_map es output
  Shows-tail (hit a s) = pass_over s
  Shows-tail (pass_over s) = pass_over (Shows-tail s)

  unmatched-Shows :
      (es : List ExpectedOutputLine) (output : List OutputLine)
      → is_empty (unmatched key_map es output) ≡ true
      → Shows key_map es output
  unfolding unmatched
  unmatched-Shows [] output h = all output
  unmatched-Shows (e ∷ es) [] h = cc
  unmatched-Shows (e ∷ es) (o ∷ output) h = elim (Bool-cases (accepts key_map e o)) [
    | inl a ↦ hit a (unmatched-Shows es output (rw (a, is_empty) at h))
    | inr a ↦ pass_over (unmatched-Shows (e ∷ es) output (rw (a, is_empty) at h))
  ]

  -- Taking the first line that fits loses no match.
  Shows-unmatched :
      (output : List OutputLine) (es : List ExpectedOutputLine)
      → Shows key_map es output
      → is_empty (unmatched key_map es output) ≡ true
  unfolding unmatched
  Shows-unmatched output [] s = refl
  Shows-unmatched [] (e ∷ es) s = elim s [ ]
  Shows-unmatched (o ∷ output) (e ∷ es) s = elim (Bool-cases (accepts key_map e o)) [
    | inl a ↦ rw (a, is_empty) (Shows-unmatched output es (later s))
    | inr a ↦ rw (a, is_empty) (Shows-unmatched output (e ∷ es) (still a s))
  ]
    where
      later : Shows key_map (e ∷ es) (o ∷ output) → Shows key_map es output
      later (hit a t) = t
      later (pass_over t) = Shows-tail t

      still :
          accepts key_map e o ≡ false
          → Shows key_map (e ∷ es) (o ∷ output)
          → Shows key_map (e ∷ es) output
      still a (hit b t) = cc
      still a (pass_over t) = t

  -- The loop matches all expected lines exactly when the output shows them.
  pub unmatched_iff :
      (es : List ExpectedOutputLine) (output : List OutputLine)
      → (is_empty (unmatched key_map es output) ≡ true) ↔ Shows key_map es output
  unmatched_iff es output = (unmatched-Shows es output, Shows-unmatched output es)
