-- ===== src/Grading/Credit.antt =====
-- The regular expression for partial credit finds the partial credit lines, and the code that looks for
-- them the first that is signed.
use test.Base.{
  ℕ, ◌≡◌, ◌≢◌, ◌≤◌, refl, sym, subst, ap, ◌∙◌, inl, inr, Bool, true, false, not, ◌&&◌, [], ◌∷◌,
  ◌++◌, Bool-cases, arith, Option, none, some, Str, Option-cases, codes, All, has_prefix,
  if◌then◌else◌, drop, ◌==◌, ==_iff,
}
use mathlib.Core.Option.{some-injective}
use test.Grading.{span_digits, second_number, first_number, credit_tail, partial_credit}
use test.Grading.Lines.{
  IsNumber, IsCredit, append_nil, append-drop, span_digits-Digits, span_digits-run,
  span_digits-whole,
}

-- A partial credit line with nothing in front.
abbrev IsTail : Str → Str × Str → Type 0
IsTail s m =
    (s ≡ codes "PARTIAL CREDIT " ++ (m.0 ++ (codes " OF " ++ m.1))) × IsNumber m.0 × IsNumber m.1

second_number-some :
    (x : Str) (p m : Str × Str)
    → second_number x p ≡ some m
    → (p.0 ≢ []) × (p.1 ≡ []) × (m ≡ (x, p.0))
unfolding second_number
second_number-some x ([], rest) m h = cc h
second_number-some x (c ∷ ds, []) m h = (λ e. cc e, refl, sym (some-injective _ _ h))
second_number-some x (c ∷ ds, d ∷ rest) m h = cc h

-- All digits, and a text that is nothing else.
whole-IsNumber : (s : Str) → (span_digits s).0 ≢ [] → (span_digits s).1 ≡ [] → IsNumber s
whole-IsNumber s n e =
    let (all, digits) = span_digits-Digits s in
    let same : s ≡ (span_digits s).0 =
      all ∙ (ap (λ (t : Str). (span_digits s).0 ++ t) e ∙ append_nil _) in
    subst IsNumber (sym same) (n, digits)

first_number-some :
    (p m : Str × Str)
    → first_number p ≡ some m
    → (p.0 ≢ []) × (m.0 ≡ p.0) × (p.1 ≡ codes " OF " ++ m.1) × IsNumber m.1
unfolding first_number
first_number-some ([], rest) m h = cc h
first_number-some (c ∷ ds, rest) m h = elim (Bool-cases (has_prefix rest (codes " OF "))) [
  | inl e ↦
      let (n, z, q) = second_number-some (c ∷ ds) (span_digits (drop 4 rest)) m (rw e at h) in
      let num = whole-IsNumber (drop 4 rest) n z in
      let (all, digits) = span_digits-Digits (drop 4 rest) in
      let same : drop 4 rest ≡ m.1 =
        all
        ∙ (ap (λ (t : Str). (span_digits (drop 4 rest)).0 ++ t) z
            ∙ (append_nil _ ∙ sym (ap (λ (r : Str × Str). r.1) q))) in
      (
        λ x. cc x,
        ap (λ (r : Str × Str). r.0) q,
        append-drop (codes " OF ") rest e ∙ ap (λ (t : Str). codes " OF " ++ t) same,
        subst IsNumber same num,
      )
  | inr e ↦ cc (rw e at h)
]

credit_tail-IsTail : (s : Str) (m : Str × Str) → credit_tail s ≡ some m → IsTail s m
unfolding credit_tail
credit_tail-IsTail s m h = elim (Bool-cases (has_prefix s (codes "PARTIAL CREDIT "))) [
  | inl e ↦
      let (n, q, r, num) = first_number-some (span_digits (drop 15 s)) m (rw e at h) in
      let (all, digits) = span_digits-Digits (drop 15 s) in
      (
        append-drop (codes "PARTIAL CREDIT ") s e
            ∙ ap (λ (t : Str). codes "PARTIAL CREDIT " ++ t)
                (all
                  ∙ (ap (λ (t : Str). (span_digits (drop 15 s)).0 ++ t) r
                      ∙ ap (λ (t : Str). t ++ (codes " OF " ++ m.1)) (sym q))),
        subst IsNumber (sym q) (n, digits),
        num,
      )
  | inr e ↦ cc (rw e at h)
]

second_number-full : (x y : Str) → IsNumber y → second_number x (span_digits y) ≡ some (x, y)
unfolding second_number
second_number-full x [] (n, d) = elim (n refl) [ ]
second_number-full x (c ∷ y) (n, d) = rw (span_digits-whole (c ∷ y) d) refl

first_number-full :
    (x y : Str) → IsNumber x → IsNumber y → first_number (x, codes " OF " ++ y) ≡ some (x, y)
unfolding first_number has_prefix
first_number-full [] y (n, d) h = elim (n refl) [ ]
first_number-full (c ∷ x) y (n, d) h = second_number-full (c ∷ x) y h

IsTail-credit_tail : (s : Str) (m : Str × Str) → IsTail s m → credit_tail s ≡ some m
unfolding credit_tail has_prefix span_digits
IsTail-credit_tail s m (e, x, y) =
    subst (λ (t : Str). credit_tail t ≡ some (m.0, m.1)) (sym e)
      (ap first_number (span_digits-run m.0 (codes " OF " ++ m.1) x.1 refl)
        ∙ first_number-full m.0 m.1 x y)

no_p : Str → Bool
no_p [] = true
no_p (c ∷ s) = not (c == 80) && no_p s

no_p-append : (s t : Str) → no_p s ≡ true → no_p t ≡ true → no_p (s ++ t) ≡ true
unfolding no_p
no_p-append [] t h k = k
no_p-append (c ∷ s) t h k = ground (arith, no_p-append s t)

no_p-digits : (s : Str) → All (λ (c : ℕ). (b'0' ≤ c) × (c ≤ b'9')) s → no_p s ≡ true
unfolding no_p
no_p-digits [] h = refl
no_p-digits (c ∷ s) h = ground (arith, h.0, no_p-digits s h.1)

p-no_p : (before rest : Str) → no_p (before ++ 80 ∷ rest) ≡ false
unfolding no_p
p-no_p [] rest = refl
p-no_p (c ∷ before) rest = ground (arith, p-no_p before rest)

-- Behind the first byte of a partial credit line there is no other P.
IsTail-no_p : (c : ℕ) (s : Str) (m : Str × Str) → IsTail (c ∷ s) m → no_p s ≡ true
unfolding no_p
IsTail-no_p c s m (e, x, y) =
    ap (λ (t : Str). no_p (drop 1 t)) e
    ∙ no_p-append m.0 (codes " OF " ++ m.1) (no_p-digits m.0 x.1) (no_p-digits m.1 y.1)

choose : ℕ → Str → Option (Str × Str) → Option (Str × Str)
choose c s r = elim r [ some m ↦ some m | none ↦ if c == 10 then none else partial_credit s ]

-- No match here: a newline ends the search, and else it goes on.
none_here :
    (c : ℕ) (s : Str)
    → credit_tail (c ∷ s) ≡ none
    → partial_credit (c ∷ s) ≡ (if c == 10 then none else partial_credit s)
unfolding partial_credit choose credit_tail has_prefix
none_here c s e = ap (choose c s) e

at_once : (s : Str) (m : Str × Str) → credit_tail s ≡ some m → partial_credit s ≡ some m
unfolding partial_credit choose credit_tail has_prefix
at_once [] m h = cc h
at_once (c ∷ s) m h = ap (choose c s) h

nothing : (m : Str × Str) → partial_credit [] ≡ some m → IsCredit [] m
unfolding partial_credit
nothing m h = cc h

pub partial_credit-IsCredit : (s : Str) (m : Str × Str) → partial_credit s ≡ some m → IsCredit s m
partial_credit-IsCredit [] m h = nothing m h
partial_credit-IsCredit (c ∷ s) m h = elim (Option-cases (credit_tail (c ∷ s))) [
  | inl n ↦ elim (Bool-cases (c == 10)) [
    | inl e ↦ cc (sym (none_here c s n) ∙ h, ap (λ b. if b then none else partial_credit s) e)
    | inr e ↦
        let (before, q, a, x, y) =
          partial_credit-IsCredit s m
            (sym (none_here c s n ∙ ap (λ b. if b then none else partial_credit s) e) ∙ h) in
        (c ∷ before, ap (λ (t : Str). c ∷ t) q, ((λ k. cc ((==_iff c 10).1 k, e)), a), x, y)
  ]
  | inr (k, n) ↦
      let (e, x, y) = credit_tail-IsTail (c ∷ s) m (n ∙ (sym (at_once (c ∷ s) k n) ∙ h)) in
      ([], e, tt, x, y)
]

first : Str → ℕ
first [] = 0
first (c ∷ s) = c

further :
    (c : ℕ) (s : Str) (m : Str × Str)
    → c ≢ 10
    → no_p s ≡ false
    → partial_credit s ≡ some m
    → partial_credit (c ∷ s) ≡ some m
further c s m n p h = elim (Option-cases (credit_tail (c ∷ s))) [
  | inl n0 ↦ elim (Bool-cases (c == 10)) [
    | inl e ↦ elim (n ((==_iff c 10).0 e)) [ ]
    | inr e ↦ none_here c s n0 ∙ (ap (λ b. if b then none else partial_credit s) e ∙ h)
  ]
  | inr (k, here_too) ↦ cc (p, IsTail-no_p c s k (credit_tail-IsTail (c ∷ s) k here_too))
]

pub IsCredit-partial_credit : (s : Str) (m : Str × Str) → IsCredit s m → partial_credit s ≡ some m
unfolding first
IsCredit-partial_credit s m ([], e, a, x, y) = at_once s m (IsTail-credit_tail s m (e, x, y))
IsCredit-partial_credit [] m (b ∷ before, e, a, x, y) = cc e
IsCredit-partial_credit (c ∷ s) m (b ∷ before, e, a, x, y) =
    let same : c ≡ b = ap first e in
    let rest = ap (λ (t : Str). drop 1 t) e in
    further c s m (λ k. a.0 (sym same ∙ k)) (ap no_p rest ∙ p-no_p before _)
      (IsCredit-partial_credit s m (before, rest, a.1, x, y))
