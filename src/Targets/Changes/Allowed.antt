-- ===== src/Targets/Changes/Allowed.antt =====
-- A change of a target is allowed exactly when the two targets have the same shape.
use test.Base.{
  ◌≤◌, ◌≡◌, ◌↔◌, refl, sym, ap, subst, ◌∙◌, inl, inr, Bool, true, false, not, List, [], ◌∷◌, Option,
  none, some, Str, str_eq, str_eq_iff, str_eq_refl, eq_of_str_eq, has, Dict, lookup, insert,
  lookup-insert, length, ==_iff, if◌then◌else◌, arith, Bool-cases, Option-cases, All,
}
use mathlib.Core.Option
use test.Graph.Nodes.{Distinct}
use test.Targets.{Target, TargetTest}
use test.Targets.Changes.{
  ChangeError, test_map, check_test, check_tests, check_names, same_flag, is_change_allowed,
  or_else,
}
use test.Targets.Changes.Shape.{
  ids, Scoring, scoring_of, scoring, SameShape, same_names, same_length, length-ids,
}

-- The scoring that a map of tests holds for an id.
abbrev held : Str → Dict TargetTest → Option Scoring
held id m = Option.map scoring_of (lookup id m)

scoring-missing : (id : Str) (ts : List TargetTest) → has id (ids ts) ≡ false → scoring id ts ≡ none
unfolding has
scoring-missing id [] h = refl
scoring-missing id (t ∷ ts) h = ground (arith, scoring-missing id ts)

scoring-known :
    (id : Str) (ts : List TargetTest) (s : Scoring)
    → scoring id ts ≡ some s
    → has id (ids ts) ≡ true
scoring-known id ts s h = elim (Bool-cases (has id (ids ts))) [
  | inl e ↦ e
  | inr e ↦ absurd (cc (h, scoring-missing id ts e))
]

known-scoring :
    (id : Str) (ts : List TargetTest)
    → has id (ids ts) ≡ true
    → (s : Scoring) × (scoring id ts ≡ some s)
unfolding has
known-scoring id [] h = cc
known-scoring id (t ∷ ts) h = elim (Bool-cases (str_eq t.id id)) [
  | inl e ↦ (scoring_of t, rw e refl)
  | inr e ↦ rw e (known-scoring id ts (rw e at h))
]

abbrev first : Option Scoring → Option Scoring → Option Scoring
first none o = o
first (some s) o = some s

held-test_map :
    (id : Str) (ts : List TargetTest) (m : Dict TargetTest)
    → Distinct (ids ts)
    → held id (test_map ts m) ≡ first (scoring id ts) (held id m)
unfolding test_map
held-test_map id [] m d = refl
held-test_map id (t ∷ ts) m d = elim (Bool-cases (str_eq t.id id)) [
  | inl e ↦
      let p : scoring id ts ≡ none =
        scoring-missing id ts (subst (λ k. has k (ids ts) ≡ false) (eq_of_str_eq t.id id e) d.0) in
      let q : held id (insert t.id t m) ≡ some (scoring_of t) =
        rw (lookup-insert t.id id t m, e) refl in
      held-test_map id ts (insert t.id t m) d.1 ∙ rw (p, q, e) refl
  | inr e ↦
      let q : held id (insert t.id t m) ≡ held id m = rw (lookup-insert t.id id t m, e) refl in
      held-test_map id ts (insert t.id t m) d.1 ∙ rw (q, e) refl
]

first-none : (o : Option Scoring) → first o none ≡ o
first-none none = refl
first-none (some s) = refl

held-old_map :
    (id : Str) (ts : List TargetTest) → Distinct (ids ts) → held id (test_map ts []) ≡ scoring id ts
unfolding lookup
held-old_map id ts d = held-test_map id ts [] d ∙ first-none (scoring id ts)

check_test-none :
    (o : Option TargetTest) (t : TargetTest)
    → (check_test o t ≡ none) ↔ (Option.map scoring_of o ≡ some (scoring_of t))
unfolding check_test
check_test-none none t = (λ h. cc, λ h. cc)
check_test-none (some old) t = ground (arith, str_eq_iff old.scoring t.scoring)

module _ (m : Dict TargetTest) where
  abbrev Kept : TargetTest → Type 0
  Kept t = held t.id m ≡ some (scoring_of t)

  check_tests-Kept : (ts : List TargetTest) → check_tests m ts ≡ none → All Kept ts
  unfolding check_tests
  check_tests-Kept [] h = tt
  check_tests-Kept (t ∷ ts) h = elim (Option-cases (check_test (lookup t.id m) t)) [
    | inl e ↦ ((check_test-none (lookup t.id m) t).0 e, check_tests-Kept ts (rw e at h))
    | inr (x, e) ↦ absurd (cc (rw e at h))
  ]

  Kept-check_tests : (ts : List TargetTest) → All Kept ts → check_tests m ts ≡ none
  unfolding check_tests
  Kept-check_tests [] h = refl
  Kept-check_tests (t ∷ ts) h =
      rw ((check_test-none (lookup t.id m) t).1 h.0) (Kept-check_tests ts h.1)

  Kept-scoring :
      (ts : List TargetTest)
      → All Kept ts
      → (id : Str) (s : Scoring) → scoring id ts ≡ some s
      → held id m ≡ some s
  Kept-scoring [] a id s h = cc
  Kept-scoring (t ∷ ts) a id s h = elim (Bool-cases (str_eq t.id id)) [
    | inl e ↦ subst (λ k. held k m ≡ some s) (eq_of_str_eq t.id id e) (a.0 ∙ rw e at h)
    | inr e ↦ Kept-scoring ts a.1 id s (rw e at h)
  ]

  scoring-Kept :
      (ts : List TargetTest)
      → Distinct (ids ts)
      → ((id : Str) (s : Scoring) → scoring id ts ≡ some s → held id m ≡ some s)
      → All Kept ts
  scoring-Kept [] d h = tt
  scoring-Kept (t ∷ ts) d h = (
    h t.id (scoring_of t) (rw (str_eq_refl t.id) refl),
    scoring-Kept ts d.1 (λ id s k. h id s (elim (Bool-cases (str_eq t.id id)) [
      | inl e ↦ absurd (
          cc (
            k,
            scoring-missing id ts
                (subst (λ k. has k (ids ts) ≡ false) (eq_of_str_eq t.id id e) d.0),
          ))
      | inr e ↦ rw e k
    ])),
  )

check_names_iff :
    (old ns : List Str)
    → (check_names old ns ≡ none) ↔ ((x : Str) → has x ns ≡ true → has x old ≡ true)
unfolding check_names has
check_names_iff old [] = (λ h x k. absurd (cc k), λ h. refl)
check_names_iff old (n ∷ ns) = (
  λ h x k. elim (Bool-cases (has n old)) [
    | inl e ↦ elim (Bool-cases (str_eq n x)) [
      | inl f ↦ subst (λ y. has y old ≡ true) (eq_of_str_eq n x f) e
      | inr f ↦ (check_names_iff old ns).0 (rw e at h) x (rw f at k)
    ]
    | inr e ↦ absurd (cc (rw e at h))
  ],
  λ h. rw (h n (rw (str_eq_refl n) refl)) ((check_names_iff old ns).1 (λ x k. h x (ground arith))),
)

abbrev present : Option Scoring → Bool
present none = false
present (some s) = true

has-ids : (id : Str) (ts : List TargetTest) → has id (ids ts) ≡ present (scoring id ts)
unfolding has
has-ids id [] = refl
has-ids id (t ∷ ts) = ground (arith, has-ids id ts)

module _ (old ts : List TargetTest) (d : Distinct (ids old)) (e : Distinct (ids ts)) where
  check_tests-same :
      length old ≡ length ts
      → check_tests (test_map old []) ts ≡ none
      → (id : Str) → scoring id old ≡ scoring id ts
  check_tests-same n h id =
      let at_new : (j : Str) (s : Scoring) → scoring j ts ≡ some s → scoring j old ≡ some s =
        λ j s k.
          sym (held-old_map j old d)
          ∙ Kept-scoring (test_map old []) ts (check_tests-Kept (test_map old []) ts h) j s k in
      let into : (j : Str) → has j (ids ts) ≡ true → has j (ids old) ≡ true =
        λ j k. let (s, q) = known-scoring j ts k in scoring-known j old s (at_new j s q) in
      let size : length (ids old) ≤ length (ids ts) =
        omega (arith, length-ids old, length-ids ts) in
      elim (Bool-cases (has id (ids ts))) [
        | inl k ↦ let (s, q) = known-scoring id ts k in at_new id s q ∙ sym q
        | inr k ↦
            let gone : has id (ids old) ≡ false =
              ground (arith, same_names (ids ts) (ids old) e size into id) in
            scoring-missing id old gone ∙ sym (scoring-missing id ts k)
      ]

  same-check_tests :
      ((id : Str) → scoring id old ≡ scoring id ts)
      → (length old ≡ length ts) × (check_tests (test_map old []) ts ≡ none)
  same-check_tests h = (
    sym (length-ids old)
        ∙ same_length (ids old) (ids ts) d e
            (λ x. has-ids x old ∙ ap present (h x) ∙ sym (has-ids x ts))
        ∙ length-ids ts,
    Kept-check_tests (test_map old []) ts
        (scoring-Kept (test_map old []) ts e (λ id s k. held-old_map id old d ∙ h id ∙ k)),
  )

module _ (old ns : List Str) (d : Distinct old) (e : Distinct ns) where
  check_names-same :
      length old ≡ length ns → check_names old ns ≡ none → (x : Str) → has x old ≡ has x ns
  check_names-same n h x =
      let into : (y : Str) → has y ns ≡ true → has y old ≡ true = (check_names_iff old ns).0 h in
      ground (arith, into x, same_names ns old e (omega arith) into x)

  same-check_names :
      ((x : Str) → has x old ≡ has x ns) → (length old ≡ length ns) × (check_names old ns ≡ none)
  same-check_names h = (same_length old ns d e h, (check_names_iff old ns).1 (λ x k. h x ∙ k))

or_else-none : (a b : Option ChangeError) → or_else a b ≡ none → (a ≡ none) × (b ≡ none)
or_else-none none b h = (refl, h)
or_else-none (some x) b h = absurd (cc h)

same_flag_iff : (a b : Bool) → (same_flag a b ≡ true) ↔ (a ≡ b)
same_flag_iff true b = (λ h. sym h, λ h. sym h)
same_flag_iff false true = (λ h. absurd (cc h), λ h. absurd (cc h))
same_flag_iff false false = (λ h. refl, λ h. refl)

-- A guard that was passed.
guard-none :
    (b : Bool) (x : ChangeError) (o : Option ChangeError)
    → (if not b then some x else o) ≡ none
    → (b ≡ true) × (o ≡ none)
guard-none true x o h = (refl, h)
guard-none false x o h = absurd (cc h)

module _ (old t : Target) (od : Distinct (ids old.tests)) (td : Distinct (ids t.tests))
    (on : Distinct old.sub_names) (tn : Distinct t.sub_names) where
  allowed-SameShape : is_change_allowed old t ≡ none → SameShape old t
  unfolding is_change_allowed
  allowed-SameShape h =
      let (v, h1) = guard-none _ _ _ h in
      let (n, h2) = guard-none _ _ _ h1 in
      let (k, h3) = guard-none _ _ _ h2 in
      let (p, h4) = guard-none _ _ _ h3 in
      let (m, h5) = guard-none _ _ _ h4 in
      let (l, h6) = guard-none _ _ _ h5 in
      let (c, h7) = or_else-none _ _ h6 in
      let (sl, h8) = guard-none _ _ _ h7 in
      record {
        version = (==_iff old.version t.version).0 v;
        name = eq_of_str_eq old.name t.name n;
        kind = eq_of_str_eq old.kind t.kind k;
        points = (==_iff old.points t.points).0 p;
        is_meta = (same_flag_iff old.is_meta t.is_meta).0 m;
        tests = check_tests-same old.tests t.tests od td ((==_iff _ _).0 l) c;
        sub_names = check_names-same old.sub_names t.sub_names on tn ((==_iff _ _).0 sl) h8;
      }

  SameShape-allowed : SameShape old t → is_change_allowed old t ≡ none
  unfolding is_change_allowed
  SameShape-allowed s =
      let (l, c) = same-check_tests old.tests t.tests od td s.tests in
      let (sl, cn) = same-check_names old.sub_names t.sub_names on tn s.sub_names in
      rw
        (
          (==_iff old.version t.version).1 s.version,
          (str_eq_iff old.name t.name).1 s.name,
          (str_eq_iff old.kind t.kind).1 s.kind,
          (==_iff old.points t.points).1 s.points,
          (same_flag_iff old.is_meta t.is_meta).1 s.is_meta,
          (==_iff (length old.tests) (length t.tests)).1 l,
          c,
          (==_iff (length old.sub_names) (length t.sub_names)).1 sl,
        )
        cn

  -- Of two targets without a test or a subtarget twice, the first may be replaced by the second without a new version exactly when they have the same version, name, type, points and metatarget flag, the same tests with the same points, scoring and leak points, and the same subtargets, in whatever order.
  pub is_change_allowed_iff : (is_change_allowed old t ≡ none) ↔ SameShape old t
  is_change_allowed_iff = (allowed-SameShape, SameShape-allowed)
