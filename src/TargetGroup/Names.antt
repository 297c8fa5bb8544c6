-- ===== src/TargetGroup/Names.antt =====
-- The tests that targets name: no name is taken twice.
use test.Base.{
  ℕ, ◌≡◌, refl, sym, ap, subst, ◌∙◌, inl, inr, true, false, not, List, [], ◌∷◌, ◌++◌, Option, none,
  some, Str, str_eq, str_eq_refl, eq_of_str_eq, has, has-append, Dict, ◌==◌, ==_iff, if◌then◌else◌,
  arith, Bool-cases, Option-cases,
}
use mathlib.Core.List.{append_assoc, append-nil}
use test.Graph.Nodes.{Distinct}
use test.Graph.Relax.{Distinct-snoc}
use test.Targets.{Target, TargetTest}
use test.Targets.Apply.{Scored, Applied, done}
use test.Targets.Changes.Shape.{ids}
use test.TargetGroup.{
  GradeError, wrong_total, Assembled, assembled, refused, GradedTest, add_tests, add_targets,
  when_applied, then_grade,
}

-- The tests that the targets name.
abbrev pub names : List Target → List Str
names [] = []
names (t ∷ ts) = ids t.tests ++ names ts

abbrev some_or : {A : Type 0} → A → Option A → A
some_or a none = a
some_or a (some b) = b

pub some_inj : {A : Type 0} {a b : A} → some a ≡ some b → a ≡ b
some_inj {a = a} h = ap (some_or a) h

abbrev assembled_or : {E A : Type 0} → A → Assembled E A → A
assembled_or a (refused e) = a
assembled_or a (assembled b) = b

pub assembled_inj :
    {E A : Type 0} {a b : A} → ◌≡◌ {A = Assembled E A} (assembled a) (assembled b) → a ≡ b
assembled_inj {a = a} h = ap (assembled_or a) h

pub when_applied-done :
    {A : Type 0} (o : Applied Scored) (f : Scored → Assembled GradeError A) (a : A)
    → when_applied o f ≡ assembled a
    → (s : Scored) × (o ≡ done s) × (f s ≡ assembled a)
when_applied-done (done s) f a h = (s, refl, h)
when_applied-done (Applied.failed e) f a h = absurd (cc h)

pub then_grade-assembled :
    {A B : Type 0} (o : Assembled GradeError A) (f : A → Assembled GradeError B) (b : B)
    → then_grade o f ≡ assembled b
    → (a : A) × (o ≡ assembled a) × (f a ≡ assembled b)
then_grade-assembled (assembled a) f b h = (a, refl, h)
then_grade-assembled (refused e) f b h = absurd (cc h)

pub neither :
    (id : Str) (xs ys : List Str)
    → has id (xs ++ ys) ≡ false
    → (has id xs ≡ false) × (has id ys ≡ false)
neither id xs ys h = (ground (arith, has-append id xs ys), ground (arith, has-append id xs ys))

-- Two lists without repetition have nothing in common.
pub Distinct-append :
    (xs ys : List Str)
    → Distinct (xs ++ ys)
    → Distinct xs × Distinct ys × ((id : Str) → has id xs ≡ true → has id ys ≡ false)
unfolding has
Distinct-append [] ys d = (tt, d, λ id h. absurd (cc h))
Distinct-append (x ∷ xs) ys d =
    let (dx, dy, apart) = Distinct-append xs ys d.1 in
    let (a, b) = neither x xs ys d.0 in
    (
      (a, dx),
      dy,
      λ id h. elim (Bool-cases (str_eq x id)) [
        | inl e ↦ subst (λ y. has y ys ≡ false) (eq_of_str_eq x id e) b
        | inr e ↦ apart id (ground arith)
      ],
    )

pub checked :
    (t : Target) (ks : Dict GradedTest) (sum : ℕ) (ms : Dict GradedTest)
    → (if not (sum == t.points) then refused wrong_total else assembled ks) ≡ assembled ms
    → (t.points ≡ sum) × (ms ≡ ks)
checked t ks sum ms h = elim (Bool-cases (sum == t.points)) [
  | inl e ↦ (sym ((==_iff sum t.points).0 e), sym (assembled_inj (rw e at h)))
  | inr e ↦ absurd (cc (rw e at h))
]

add_tests-Distinct :
    (ts : List TargetTest) (before r : List Str)
    → Distinct before
    → add_tests ts before ≡ some r
    → Distinct r × (r ≡ before ++ ids ts)
unfolding add_tests
add_tests-Distinct [] before r d h =
    let q : before ≡ r = some_inj h in (subst Distinct q d, sym q ∙ sym (append-nil before))
add_tests-Distinct (tt' ∷ ts) before r d h = elim (Bool-cases (has tt'.id before)) [
  | inl e ↦ absurd (cc (rw e at h))
  | inr e ↦
      let (d', q) =
        add_tests-Distinct ts (before ++ tt'.id ∷ []) r (Distinct-snoc tt'.id before d e)
          (rw e at h) in
      (d', q ∙ append_assoc before (tt'.id ∷ []) (ids ts))
]

add_tests-none :
    (ts : List TargetTest) (before : List Str)
    → add_tests ts before ≡ none
    → Distinct (before ++ ids ts)
    → ⊥
unfolding add_tests has
add_tests-none [] before h d = cc
add_tests-none (tt' ∷ ts) before h d = elim (Bool-cases (has tt'.id before)) [
  | inl e ↦
      let (a, b, apart) = Distinct-append before (ids (tt' ∷ ts)) d in
      absurd (ground (arith, apart tt'.id e, str_eq_refl tt'.id))
  | inr e ↦
      add_tests-none ts (before ++ tt'.id ∷ []) (rw e at h)
        (subst Distinct (sym (append_assoc before (tt'.id ∷ []) (ids ts))) d)
]

pub add_targets-none :
    (ts : List Target) (before : List Str)
    → add_targets ts before ≡ none
    → Distinct (before ++ names ts)
    → ⊥
unfolding add_targets
add_targets-none [] before h d = cc
add_targets-none (t ∷ ts) before h d =
    let d' = subst Distinct (sym (append_assoc before (ids t.tests) (names ts))) d in
    elim (Option-cases (add_tests t.tests before)) [
      | inl e ↦
          add_tests-none t.tests before e (Distinct-append (before ++ ids t.tests) (names ts) d').0
      | inr (r, e) ↦
          let q =
            (add_tests-Distinct t.tests before r (Distinct-append before (names (t ∷ ts)) d).0
              e).1 in
          add_targets-none ts r (rw e at h) (subst (λ x. Distinct (x ++ names ts)) (sym q) d')
    ]

pub add_targets-Distinct :
    (ts : List Target) (before r : List Str)
    → Distinct before
    → add_targets ts before ≡ some r
    → Distinct r × (r ≡ before ++ names ts)
unfolding add_targets
add_targets-Distinct [] before r d h =
    let q : before ≡ r = some_inj h in (subst Distinct q d, sym q ∙ sym (append-nil before))
add_targets-Distinct (t ∷ ts) before r d h = elim (Option-cases (add_tests t.tests before)) [
  | inl e ↦ absurd (cc (rw e at h))
  | inr (m, e) ↦
      let (dm, qm) = add_tests-Distinct t.tests before m d e in
      let (dr, qr) = add_targets-Distinct ts m r dm (rw e at h) in
      (dr, qr ∙ ap (λ x. x ++ names ts) qm ∙ append_assoc before (ids t.tests) (names ts))
]
