-- ===== src/TestRun/Leaks/Reading.antt =====
-- What a khu command shows, with no mention of how its output is read.
use test.Base.{
  ℕ, ◌≡◌, ◌≢◌, refl, sym, ap, ◌∙◌, subst, inl, inr, Bool-cases, List, [], ◌∷◌, ◌++◌, some, Str,
  codes, has_prefix, drop, Option-cases,
}
use mathlib.Core.Option.{some-injective}
use test.Grading.{OutputLine, KeyMap, is_signed, span_digits, number}
use test.Grading.Lines.{
  Signed, FirstOf, here, later, IsNumber, is_signed_iff, append-drop, span_digits-Digits,
  span_digits-whole, append_nil,
}
use test.TestRun.Leaks.{clamp, khu, khu_digits, khu_number, used_memory}

-- The line is "khu: " and a decimal number, which is `n` or greater than every int.
abbrev pub KhuLine : Str → ℕ → Type 0
KhuLine s n = (ds : Str) × (s ≡ codes "khu: " ++ ds) × IsNumber ds × (n ≡ clamp (number 0 ds))

-- The first khu line that the key of khu signs shows `n`.
abbrev pub Shows : KeyMap → List OutputLine → ℕ → Type 0
Shows key_map output n =
    FirstOf (λ (o : OutputLine) (m : ℕ). Signed key_map khu o × KhuLine o.line m) output n

khu_digits-some :
    (p : Str × Str) (n : ℕ)
    → khu_digits p ≡ some n
    → (p.0 ≢ []) × (p.1 ≡ []) × (n ≡ clamp (number 0 p.0))
unfolding khu_digits
khu_digits-some ([], rest) n h = cc h
khu_digits-some (c ∷ ds, []) n h = (λ e. cc e, refl, sym (some-injective _ _ h))
khu_digits-some (c ∷ ds, d ∷ rest) n h = cc h

khu_digits-full : (ds : Str) → ds ≢ [] → khu_digits (ds, []) ≡ some (clamp (number 0 ds))
unfolding khu_digits
khu_digits-full [] h = elim (h refl) [ ]
khu_digits-full (c ∷ ds) h = refl

khu_number-KhuLine : (s : Str) (n : ℕ) → khu_number s ≡ some n → KhuLine s n
unfolding khu_number
khu_number-KhuLine s n h = elim (Bool-cases (has_prefix s (codes "khu: "))) [
  | inl e ↦
      let (some_digits, no_rest, m) = khu_digits-some (span_digits (drop 5 s)) n (rw e at h) in
      let (all, digits) = span_digits-Digits (drop 5 s) in
      (
        (span_digits (drop 5 s)).0,
        append-drop (codes "khu: ") s e
            ∙ ap (λ (t : Str). codes "khu: " ++ t)
                (all ∙ (ap (λ (t : Str). (span_digits (drop 5 s)).0 ++ t) no_rest ∙ append_nil _)),
        (some_digits, digits),
        m,
      )
  | inr e ↦ cc (rw e at h)
]

KhuLine-khu_number : (s : Str) (n : ℕ) → KhuLine s n → khu_number s ≡ some n
unfolding khu_number has_prefix
KhuLine-khu_number s n (ds, e, (some_digits, digits), m) =
    subst (λ (t : Str). khu_number t ≡ some n) (sym e)
      (ap khu_digits (span_digits-whole ds digits)
        ∙ (khu_digits-full ds some_digits ∙ ap some (sym m)))

module _ (key_map : KeyMap) where
  pub used_memory-Shows :
      (output : List OutputLine) (n : ℕ)
      → used_memory key_map output ≡ some n
      → Shows key_map output n
  unfolding used_memory
  used_memory-Shows [] n h = cc h
  used_memory-Shows (o ∷ output) n h = elim (Bool-cases (is_signed key_map khu o)) [
    | inl e ↦ elim (Option-cases (khu_number o.line)) [
      | inl r ↦
          later (λ m s. cc (KhuLine-khu_number o.line m s.1, r))
            (used_memory-Shows output n (rw (e, r) at h))
      | inr (m, r) ↦
          here ((is_signed_iff key_map khu o).0 e, khu_number-KhuLine o.line n (r ∙ rw (e, r) at h))
    ]
    | inr e ↦
        later (λ m s. cc ((is_signed_iff key_map khu o).1 s.0, e))
          (used_memory-Shows output n (rw e at h))
  ]

  pub Shows-used_memory :
      (output : List OutputLine) (n : ℕ)
      → Shows key_map output n
      → used_memory key_map output ≡ some n
  unfolding used_memory
  Shows-used_memory [] n x = elim x [ ]
  Shows-used_memory (o ∷ output) n (here (signed, l)) =
      rw ((is_signed_iff key_map khu o).1 signed, KhuLine-khu_number o.line n l) refl
  Shows-used_memory (o ∷ output) n (later other f) = elim (Bool-cases (is_signed key_map khu o)) [
    | inl e ↦ elim (Option-cases (khu_number o.line)) [
      | inl r ↦ rw (e, r) (Shows-used_memory output n f)
      | inr (m, r) ↦
          elim (other m ((is_signed_iff key_map khu o).0 e, khu_number-KhuLine o.line m r)) [ ]
    ]
    | inr e ↦ rw e (Shows-used_memory output n f)
  ]
