-- ===== src/Targets/Apply/Filling.antt =====
-- What filling in the instances does to the points.
use test.Base.{
  add64, ℕ, suc, ◌+◌, ◌%◌, ◌^◌, ◌≡◌, ◌<◌, refl, sym, ap, ◌∙◌, subst, inl, inr, true, false, ◌||◌,
  List, [], ◌∷◌, str_eq, str_eq_refl, ◌==◌, All, sum_by, Bool-cases, arith, ltb,
}
use test.Grading.{Command}
use test.TestRun.{scoring_partial}
use test.Targets.{TargetCommand}
use test.Targets.Apply.{
  Instance, Applied, done, failed, then_apply, count, put, set_args, set_points, share, instantiate,
  fill, apply_command, apply_commands,
}

abbrev value {ℓ} : {A : Type ℓ} → A → Applied A → A
value d (done a) = a
value d (failed e) = d

pub done-injective {ℓ} : {A : Type ℓ} (a b : A) → done a ≡ done b → a ≡ b
done-injective a b e = ap (value a) e

pub then_apply-done {ℓ κ} :
    {A : Type ℓ} {B : Type κ} (x : Applied A) (f : A → Applied B) (b : B)
    → then_apply x f ≡ done b
    → (a : A) × (x ≡ done a) × (f a ≡ done b)
then_apply-done (done a) f b h = (a, refl, h)
then_apply-done (failed e) f b h = cc h

abbrev pub points : Instance → ℕ
points i = i.command.points_available

-- What was not instantiated has no points.
abbrev pub Fresh : List Instance → Type 0
Fresh is = All (λ (i : Instance). i.done ≡ false → i.command.points_available ≡ 0) is

-- From `is` and `a` to `is'` and `a'`, the commands' points and the points assigned grow alike.
pub record Grown (is : List Instance) (a : ℕ) (is' : List Instance) (a' : ℕ) : Type 0 where
  pub alike : (a' + sum_by points is) % 2 ^ 64 ≡ (a + sum_by points is') % 2 ^ 64
  pub bound : a < 2 ^ 64 → a' < 2 ^ 64
  pub fresh : Fresh is'

module _ (tc : TargetCommand) where
  set_points_lem :
      (i : Instance) (c : Command)
      → ((set_points scoring_partial tc i c).command.points_available ≡ tc.points)
        × ((set_points scoring_partial tc i c).done ≡ true)
  unfolding set_points
  set_points_lem i c = rw (str_eq_refl scoring_partial) (refl, refl)

  instantiate-points :
      (i i' : Instance)
      → instantiate scoring_partial tc i ≡ done i'
      → (i.done ≡ false) × (i'.command.points_available ≡ tc.points) × (i'.done ≡ true)
  unfolding instantiate
  instantiate-points i i' h = elim (Bool-cases i.done) [
    | inl d ↦ cc (rw d at h)
    | inr d ↦
        let (c, e, f) =
          then_apply-done (set_args i.command tc.args)
            (λ c. done (set_points scoring_partial tc i c)) i' (rw d at h) in
        let q : set_points scoring_partial tc i c ≡ i' = done-injective _ _ f in
        let (p, y) = set_points_lem i c in
        (
          d,
          sym (ap (λ (x : Instance). x.command.points_available) q) ∙ p,
          sym (ap (λ (x : Instance). x.done) q) ∙ y,
        )
  ]

  share-add : (a : ℕ) → share scoring_partial tc a ≡ (a + tc.points) % 2 ^ 64
  unfolding share add64
  share-add a = rw (str_eq_refl scoring_partial) refl

  -- An instance that stays, in front of the rest.
  stay-Grown :
      (i : Instance) (is is' : List Instance) (a a' : ℕ)
      → (i.done ≡ false → i.command.points_available ≡ 0)
      → Grown is a is' a'
      → Grown (i ∷ is) a (i ∷ is') a'
  stay-Grown i is is' a a' f v = record {
    alike = omega (arith, v.alike);
    bound = v.bound;
    fresh = (f, v.fresh);
  }

  -- An instance that takes the points, in front of the rest.
  take-Grown :
      (i i' : Instance) (is is' : List Instance) (a a' : ℕ)
      → (i.done ≡ false → i.command.points_available ≡ 0)
      → instantiate scoring_partial tc i ≡ done i'
      → Grown is (share scoring_partial tc a) is' a'
      → Grown (i ∷ is) a (i' ∷ is') a'
  take-Grown i i' is is' a a' f h v =
      let (d, p, y) = instantiate-points i i' h in
      record {
        alike = omega (arith, v.alike, share-add a, p, f d);
        bound = λ lt. v.bound (omega (arith, share-add a));
        fresh = ((λ e. cc (e, y)), v.fresh);
      }

  -- The same two, for what the rest of the loop returns.
  stay-case :
      (seen : ℕ) (i : Instance) (is is' : List Instance) (a a' : ℕ)
      → (i.done ≡ false → i.command.points_available ≡ 0)
      → ((r : List Instance) (b : ℕ)
          → fill scoring_partial tc seen is a ≡ done (r, b)
          → Grown is a r b)
      → then_apply (fill scoring_partial tc seen is a) (λ r. done (put i r)) ≡ done (is', a')
      → Grown (i ∷ is) a is' a'
  stay-case seen i is is' a a' f later h =
      let (r, e, g) =
        then_apply-done (fill scoring_partial tc seen is a) (λ r. done (put i r)) (is', a') h in
      let q : ◌≡◌ {A = List Instance × ℕ} (i ∷ r.0, r.1) (is', a') = done-injective _ _ g in
      subst (λ (x : List Instance × ℕ). Grown (i ∷ is) a x.0 x.1) q
        (stay-Grown i is r.0 a r.1 f (later r.0 r.1 e))

  take-case :
      (seen : ℕ) (i : Instance) (is is' : List Instance) (a a' : ℕ)
      → (i.done ≡ false → i.command.points_available ≡ 0)
      → ((r : List Instance) (b : ℕ)
          → fill scoring_partial tc seen is (share scoring_partial tc a) ≡ done (r, b)
          → Grown is (share scoring_partial tc a) r b)
      → then_apply (instantiate scoring_partial tc i) (λ i'.
        then_apply
          (fill scoring_partial tc seen is (share scoring_partial tc a))
          (λ r. done (put i' r)))
        ≡ done (is', a')
      → Grown (i ∷ is) a is' a'
  take-case seen i is is' a a' f later h =
      let (i', e, g) = then_apply-done (instantiate scoring_partial tc i) _ (is', a') h in
      let (r, e2, g2) =
        then_apply-done (fill scoring_partial tc seen is (share scoring_partial tc a))
          (λ r. done (put i' r)) (is', a') g in
      let q : ◌≡◌ {A = List Instance × ℕ} (i' ∷ r.0, r.1) (is', a') = done-injective _ _ g2 in
      subst (λ (x : List Instance × ℕ). Grown (i ∷ is) a x.0 x.1) q
        (take-Grown i i' is r.0 a r.1 f e (later r.0 r.1 e2))

  fill-Grown :
      (seen : ℕ) (is is' : List Instance) (a a' : ℕ)
      → Fresh is
      → fill scoring_partial tc seen is a ≡ done (is', a')
      → Grown is a is' a'
  unfolding fill
  fill-Grown seen [] is' a a' f h =
      let q : ◌≡◌ {A = List Instance × ℕ} ([], a) (is', a') = done-injective _ _ h in
      subst (λ (x : List Instance × ℕ). Grown [] a x.0 x.1) q
        record { alike = refl; bound = λ lt. lt; fresh = tt }
  fill-Grown seen (i ∷ is) is' a a' f h = elim (Bool-cases (str_eq i.id tc.id)) [
    | inr e ↦
        stay-case seen i is is' a a' f.0 (λ r b. fill-Grown seen is r a b f.1) (rw (e, fill) at h)
    | inl e ↦ elim (Bool-cases ((tc.index == 0) || (tc.index == suc seen))) [
      | inl g ↦
          take-case (suc seen) i is is' a a' f.0
            (λ r b. fill-Grown (suc seen) is r (share scoring_partial tc a) b f.1)
            (rw (e, g, fill) at h)
      | inr g ↦
          stay-case (suc seen) i is is' a a' f.0 (λ r b. fill-Grown (suc seen) is r a b f.1)
            (rw (e, g, fill) at h)
    ]
  ]

  command-Grown :
      (is is' : List Instance) (a a' : ℕ)
      → Fresh is
      → apply_command scoring_partial tc is a ≡ done (is', a')
      → Grown is a is' a'
  unfolding apply_command
  command-Grown is is' a a' f h = elim (Bool-cases (count tc.id is == 0)) [
    | inl e ↦ cc (rw e at h)
    | inr e ↦ elim (Bool-cases (ltb (count tc.id is) tc.index)) [
      | inl g ↦ cc (rw (e, g) at h)
      | inr g ↦ fill-Grown 0 is is' a a' f (rw (e, g) at h)
    ]
  ]

pub commands-Grown :
    (tcs : List TargetCommand) (is is' : List Instance) (a a' : ℕ)
    → Fresh is
    → apply_commands scoring_partial tcs is a ≡ done (is', a')
    → Grown is a is' a'
unfolding apply_commands
commands-Grown [] is is' a a' f h =
    let q : ◌≡◌ {A = List Instance × ℕ} (is, a) (is', a') = done-injective _ _ h in
    subst (λ (x : List Instance × ℕ). Grown is a x.0 x.1) q
      record { alike = refl; bound = λ lt. lt; fresh = f }
commands-Grown (tc ∷ tcs) is is' a a' f h =
    let (r, e, g) =
      then_apply-done (apply_command scoring_partial tc is a)
        (λ r. apply_commands scoring_partial tcs r.0 r.1) (is', a') h in
    let v = command-Grown tc is r.0 a r.1 f e in
    let w = commands-Grown tcs r.0 is' r.1 a' v.fresh g in
    record {
      alike = omega (arith, v.alike, w.alike);
      bound = λ lt. w.bound (v.bound lt);
      fresh = w.fresh;
    }
