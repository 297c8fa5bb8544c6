-- ===== src/TestRun/Leaks/Deduction.antt =====
-- What the check for memory leaks deducts, and when.
use test.Base.{
  ℕ, ◌≡◌, ◌≢◌, ◌+◌, ◌≤◌, refl, sym, ap, ◌∙◌, subst, ◌⊎◌, inl, inr, true, List, [], ◌∷◌, ◌++◌,
  Option, none, some, Str, codes, All, Bool-cases, ◌==◌, ==_iff, length, length-append, arith,
  str_eq, str_eq_iff,
}
use test.Grading.{Command, KeyMap, command_id}
use mathlib.Core.Option.{some-injective}
use test.TestRun.{Test, add_status}
use test.TestRun.Leaks.Reading.{Shows, used_memory-Shows, Shows-used_memory}
use test.TestRun.Leaks.{deduct, leak, used_memory, compare, is_khu, check_command, check_leaks, khu}

-- The points of `t` are those of `t'` with the deduction, which `t` did not have yet.
pub record Deducted (t t' : Test) : Type 0 where
  pub sum : t'.points_earned + t'.mem_leak_deducted ≡ t.points_earned
  pub bound : t'.mem_leak_deducted ≤ t.mem_leak_points
  pub result : t'.result ≡ t.result

leak-Deducted : (t : Test) → t.mem_leak_deducted ≡ 0 → Deducted t (leak t)
unfolding leak deduct add_status
leak-Deducted t z = record { sum = ground arith; bound = ground arith; result = ground arith }

snoc_ne : (xs : List Str) (x : Str) → (xs ++ x ∷ []) ≢ xs
snoc_ne xs x e =
    let p : length (xs ++ x ∷ []) ≡ length xs = ap (λ (ys : List Str). length ys) e in
    omega (arith, p, length-append xs (x ∷ []))

deduct-statuses : (t : Test) → (deduct t).statuses ≡ t.statuses
unfolding deduct
deduct-statuses t = ground arith

leak-statuses : (t : Test) → (leak t).statuses ≢ t.statuses
unfolding leak add_status
leak-statuses t e =
    snoc_ne t.statuses (codes "memory leak")
      (ap (λ (x : List Str). x ++ codes "memory leak" ∷ []) (sym (deduct-statuses t)) ∙ e)

-- If the command is khu, it shows this number or 0.
abbrev pub MaySay : KeyMap → ℕ → Command → Type 0
MaySay key_map n c =
    command_id c.input ≡ some khu → Shows key_map c.output n ⊎ Shows key_map c.output 0

-- If the command is khu, it shows this number.
abbrev pub Says : KeyMap → ℕ → Command → Type 0
Says key_map n c = command_id c.input ≡ some khu → Shows key_map c.output n

-- The same with the number that is read. No number, or another one than this or 0, would be a leak.
abbrev MayRead : KeyMap → ℕ → Command → Type 0
MayRead key_map n c =
    command_id c.input ≡ some khu
    → (used_memory key_map c.output ≡ some n) ⊎ (used_memory key_map c.output ≡ some 0)

abbrev Reads : KeyMap → ℕ → Command → Type 0
Reads key_map n c = command_id c.input ≡ some khu → used_memory key_map c.output ≡ some n

-- What the loop returns, from its first command on.
record Checked (key_map : KeyMap) (cs : List Command) (expected : ℕ) (t t' : Test) : Type 0 where
  deducted : t.mem_leak_deducted ≡ 0 → Deducted t t'
  quiet :
      t'.statuses ≡ t.statuses
      → (n : ℕ) × ((expected ≡ 0) ⊎ (n ≡ expected)) × All (MayRead key_map n) cs
  steady :
      (n : ℕ)
      → ((expected ≡ 0) ⊎ (expected ≡ n))
      → All (Reads key_map n) cs
      → (t'.statuses ≡ t.statuses) × (t'.points_earned ≡ t.points_earned)

module _ (key_map : KeyMap) where
  leak-Checked :
      (c : Command) (cs : List Command) (expected : ℕ) (t : Test)
      → ((n : ℕ) → ((expected ≡ 0) ⊎ (expected ≡ n)) → Reads key_map n c → ⊥)
      → Checked key_map (c ∷ cs) expected t (leak t)
  leak-Checked c cs expected t bad = record {
    deducted = leak-Deducted t;
    quiet = λ e. elim (leak-statuses t e) [ ];
    steady = λ n h a. elim (bad n h a.0) [ ];
  }

  -- One command more in front, which says `used`.
  more-Checked :
      (c : Command) (cs : List Command) (expected used : ℕ) (t t' : Test)
      → ((expected ≡ 0) ⊎ (expected ≡ used))
      → used_memory key_map c.output ≡ some used
      → command_id c.input ≡ some khu
      → Checked key_map cs used t t'
      → Checked key_map (c ∷ cs) expected t t'
  more-Checked c cs expected used t t' e u id v = record {
    deducted = v.deducted;
    quiet = λ q.
        let (n, h, a) = v.quiet q in
        (
          n,
          elim e [
            | inl z ↦ inl z
            | inr z ↦ elim h [ inl y ↦ inl (z ∙ y) | inr y ↦ inr (y ∙ sym z) ]
          ],
          ((λ i. elim h [ inl y ↦ inr (u ∙ ap some y) | inr y ↦ inl (u ∙ ap some (sym y)) ]), a),
        );
    steady = λ n h a. v.steady n (inr (some-injective _ _ (sym u ∙ a.0 id))) a.1;
  }

  -- A command that is not khu in front.
  other-Checked :
      (c : Command) (cs : List Command) (expected : ℕ) (t t' : Test)
      → command_id c.input ≢ some khu
      → Checked key_map cs expected t t'
      → Checked key_map (c ∷ cs) expected t t'
  other-Checked c cs expected t t' other v = record {
    deducted = v.deducted;
    quiet = λ q. let (n, h, a) = v.quiet q in (n, h, ((λ i. elim (other i) [ ]), a));
    steady = λ n h a. v.steady n h a.1;
  }

  compare-Checked :
      (c : Command) (cs : List Command) (expected : ℕ) (reading : Option ℕ) (t t' : Test)
      → ((used : ℕ) → check_leaks key_map cs used t ≡ some t' → Checked key_map cs used t t')
      → used_memory key_map c.output ≡ reading
      → command_id c.input ≡ some khu
      → compare key_map (check_leaks key_map cs) expected reading t ≡ some t'
      → Checked key_map (c ∷ cs) expected t t'
  unfolding compare
  compare-Checked c cs expected none t t' later u id h =
      subst (Checked key_map (c ∷ cs) expected t) (some-injective _ _ h)
        (leak-Checked c cs expected t (λ n e s. cc (s id, u)))
  compare-Checked c cs expected (some used) t t' later u id h = elim (Bool-cases (expected == 0)) [
    | inl z ↦
        more-Checked c cs expected used t t' (inl ((==_iff expected 0).0 z)) u id
          (later used (rw z at h))
    | inr z ↦ elim (Bool-cases (expected == used)) [
      | inl y ↦ more-Checked c cs expected used t t' (inr ((==_iff expected used).0 y)) u id (
          later used (
            subst (λ x. check_leaks key_map cs x t ≡ some t') ((==_iff expected used).0 y)
              (rw (z, y) at h)))
      | inr y ↦ subst (Checked key_map (c ∷ cs) expected t) (some-injective _ _ (rw (z, y) at h)) (
          leak-Checked c cs expected t (λ n e s. elim e [
            | inl a ↦ cc ((==_iff expected 0).1 a, z)
            | inr a ↦ cc ((==_iff expected used).1 (a ∙ some-injective n used (sym (s id) ∙ u)), y)
          ]))
    ]
  ]

  -- The flag is not looked at.
  flag-Checked :
      (cs : List Command) (expected : ℕ) (t t' : Test)
      → Checked key_map cs expected (record t { mem_leak_checked = true }) t'
      → Checked key_map cs expected t t'
  flag-Checked cs expected t t' v = record {
    deducted =
        λ z. let d = v.deducted z in record { sum = d.sum; bound = d.bound; result = d.result };
    quiet = v.quiet;
    steady = v.steady;
  }

  command-Checked :
      (c : Command) (cs : List Command) (expected : ℕ) (t t' : Test) (id : Option Str)
      → ((used : ℕ) (t1 : Test)
          → check_leaks key_map cs used t1 ≡ some t'
          → Checked key_map cs used t1 t')
      → command_id c.input ≡ id
      → check_command key_map (check_leaks key_map cs) (is_khu key_map id) c.output expected t
        ≡ some t'
      → Checked key_map (c ∷ cs) expected t t'
  unfolding check_command is_khu
  command-Checked c cs expected t t' none later e h = cc h
  command-Checked c cs expected t t' (some id) later e h = elim (Bool-cases (str_eq id khu)) [
    | inl s ↦ flag-Checked (c ∷ cs) expected t t' (
        compare-Checked c cs expected _ _ t' (λ used. later used _) refl
          (e ∙ ap some ((str_eq_iff id khu).0 s)) (rw (s, check_command) at h))
    | inr s ↦
        other-Checked c cs expected t t'
          (λ i. cc ((str_eq_iff id khu).1 (some-injective _ _ (sym e ∙ i)), s))
          (later expected t (rw (s, check_command) at h))
  ]

  check-Checked :
      (cs : List Command) (expected : ℕ) (t t' : Test)
      → check_leaks key_map cs expected t ≡ some t'
      → Checked key_map cs expected t t'
  unfolding check_leaks
  check-Checked [] expected t t' h =
      subst (Checked key_map [] expected t) (some-injective _ _ h) record {
        deducted = λ z. record { sum = omega (arith, z); bound = omega (arith, z); result = refl };
        quiet = λ e. (expected, inr refl, tt);
        steady = λ n e a. (refl, refl);
      }
  check-Checked (c ∷ cs) expected t t' h =
      command-Checked c cs expected t t' (command_id c.input)
        (λ used t1. check-Checked cs used t1 t') refl h

  all-MaySay : (n : ℕ) (cs : List Command) → All (MayRead key_map n) cs → All (MaySay key_map n) cs
  all-MaySay n [] a = tt
  all-MaySay n (c ∷ cs) a = (
    λ i. elim (a.0 i) [
      | inl r ↦ inl (used_memory-Shows key_map c.output n r)
      | inr r ↦ inr (used_memory-Shows key_map c.output 0 r)
    ],
    all-MaySay n cs a.1,
  )

  all-Reads : (n : ℕ) (cs : List Command) → All (Says key_map n) cs → All (Reads key_map n) cs
  all-Reads n [] a = tt
  all-Reads n (c ∷ cs) a = (λ i. Shows-used_memory key_map c.output n (a.0 i), all-Reads n cs a.1)

  -- What the check for memory leaks takes off the points is what it records as the deduction, it is no
  -- more than the test's points for memory leaks, and the test keeps its result. If the check reports
  -- no leak, then each khu command shows the same number or 0; and if each khu command shows the same
  -- number, it reports none and the points stay. A khu command shows the number of its first line of
  -- the form "khu: <number>" that is trusted and signed by khu, or of its first such line at all if
  -- khu has no key; a number greater than every int counts as the greatest. Before the check, no
  -- deduction is recorded.
  pub check_leaks-Deducted :
      (cs : List Command) (t t' : Test)
      → t.mem_leak_deducted ≡ 0
      → check_leaks key_map cs 0 t ≡ some t'
      → Deducted t t'
        × (t'.statuses ≡ t.statuses → (n : ℕ) × All (MaySay key_map n) cs)
        × ((n : ℕ)
            → All (Says key_map n) cs
            → (t'.statuses ≡ t.statuses) × (t'.points_earned ≡ t.points_earned))
  check_leaks-Deducted cs t t' z h =
      let v = check-Checked cs 0 t t' h in
      (
        v.deducted z,
        λ e. let (n, x, a) = v.quiet e in (n, all-MaySay n cs a),
        λ n a. v.steady n (inl refl) (all-Reads n cs a),
      )
