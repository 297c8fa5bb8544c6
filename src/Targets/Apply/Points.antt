-- ===== src/Targets/Apply/Points.antt =====
-- The points that a target gives to the commands of a test.
use test.Base.{
  ℕ, ◌%◌, ◌^◌, ◌≡◌, ◌<◌, refl, sym, ap, ◌∙◌, subst, inl, inr, true, List, [], ◌∷◌, Option, none,
  some, Str, str_eq_refl, ◌==◌, ==_iff, All, sum_by, Bool-cases, arith,
}
use test.Grading.{Command, command_id}
use test.TestRun.{scoring_partial}
use test.Targets.{TargetTest}
use test.Targets.Apply.{
  Instance, Scored, Applied, done, failed, add_instance, instances, apply_commands, verify,
  apply_to, covered,
}
use test.Targets.Apply.Filling.{then_apply-done, done-injective, points, Fresh, commands-Grown}

-- At the start no instance is done and none has points.
abbrev Empty : List Instance → Type 0
Empty is = Fresh is × (sum_by points is ≡ 0)

add_instance-Empty :
    (c : Command) (id : Option Str) (rest : Applied (List Instance)) (is : List Instance)
    → c.points_available ≡ 0
    → ((js : List Instance) → rest ≡ done js → Empty js)
    → add_instance c id rest ≡ done is
    → Empty is
unfolding add_instance
add_instance-Empty c none rest is z later h = cc h
add_instance-Empty c (some id) (failed e) is z later h = cc h
add_instance-Empty c (some id) (done js) is z later h =
    let (f, s) = later js refl in
    subst Empty (done-injective _ _ h) (((λ d. z), f), omega (arith, s, z))

instances-Empty :
    (cs : List Command) (is : List Instance)
    → All (λ (c : Command). c.points_available ≡ 0) cs
    → instances cs ≡ done is
    → Empty is
unfolding instances
instances-Empty [] is z h = subst Empty (done-injective _ _ h) (tt, refl)
instances-Empty (c ∷ cs) is z h =
    add_instance-Empty c (command_id c.input) (instances cs) is z.0
      (λ js. instances-Empty cs js z.1) h

verify-points :
    (tt' : TargetTest) (is : List Instance) (a : ℕ) (s : Scored)
    → tt'.scoring ≡ scoring_partial
    → verify tt' (is, a) ≡ done s
    → (a ≡ tt'.points)
      × (s.points_available ≡ tt'.points)
      × (s.commands ≡ is)
      × (covered tt'.commands is ≡ true)
unfolding verify
verify-points tt' is a s p h = elim (Bool-cases (a == tt'.points)) [
  | inr e ↦ cc (rw (p, str_eq_refl scoring_partial, e) at h)
  | inl e ↦ elim (Bool-cases (covered tt'.commands is)) [
    | inr g ↦ cc (rw (p, str_eq_refl scoring_partial, e, g) at h)
    | inl g ↦
        let q = done-injective _ _ (rw (p, str_eq_refl scoring_partial, e, g) at h) in
        (
          (==_iff a tt'.points).0 e,
          sym (ap (λ (x : Scored). x.points_available) q),
          sym (ap (λ (x : Scored). x.commands) q),
          g,
        )
  ]
]

-- With partial scoring, a target that is applied to a test without an error gives the test's commands,
-- which had no points, points that add up to the points of the target's test, modulo 2 ^ 64.
pub apply_to-points :
    (tt' : TargetTest) (cs : List Command) (s : Scored)
    → tt'.scoring ≡ scoring_partial
    → tt'.points < 2 ^ 64
    → All (λ (c : Command). c.points_available ≡ 0) cs
    → apply_to tt' cs ≡ done s
    → (s.points_available ≡ tt'.points)
      × (sum_by (λ (i : Instance). i.command.points_available) s.commands % 2 ^ 64 ≡ tt'.points)
unfolding apply_to
apply_to-points tt' cs s p lt z h =
    let (is, e, g) = then_apply-done (instances cs) _ s h in
    let (r, e2, g2) =
      then_apply-done (apply_commands tt'.scoring tt'.commands is 0) (verify tt') s g in
    let (f, none_yet) = instances-Empty cs is z e in
    let v = commands-Grown tt'.commands is r.0 0 r.1 f (rw p at e2) in
    let (a, b, c, d) = verify-points tt' r.0 r.1 s p g2 in
    (
      b,
      ap (λ (x : List Instance). sum_by points x % 2 ^ 64) c
          ∙ omega (arith, v.alike, v.bound (omega arith), none_yet, a, lt),
    )
