-- ===== src/Targets/Linking.antt =====
-- Which targets a subtarget and a metatarget end up with.
use test.Base.{
  add64, ℕ, ◌+◌, ◌%◌, ◌^◌, ◌≡◌, ◌≢◌, ◌<◌, refl, sym, ap, ◌∙◌, subst, inl, inr, Bool, true, false,
  not, List, [], ◌∷◌, ◌++◌, Option, none, some, Str, str_eq, str_eq_iff, Dict, lookup, is_empty,
  ◌==◌, ==_iff, if◌then◌else◌, All, sum_by, Bool-cases, Option-cases, arith,
}
use mathlib.Core.List.{append_assoc, append-nil}
use test.Targets.{
  Target, Outcome, ok, error, before, add_other, link, link_to, init_as_sub_target, mismatch,
  take_subs, check_points, init_as_meta_target, not_meta, has_tests, no_subtargets,
}

abbrev value {ℓ} : {A : Type ℓ} → A → Outcome A → A
value d (ok a) = a
value d (error e) = d

pub ok-injective {ℓ} : {A : Type ℓ} (a b : A) → ok a ≡ ok b → a ≡ b
ok-injective a b e = ap (value a) e

add64-lt : (a b : ℕ) → add64 a b < 2 ^ 64
unfolding add64
add64-lt a b = omega arith

module _ (targets : Dict Target) where
  abbrev Earlier : Str → Str → Type 0
  Earlier this name = (name ≢ this) × (sub : Target) × (lookup name targets ≡ some sub)

  -- The names up to `this`, which all are targets, are `others`.
  abbrev pub Before : Str → List Str → List Str → Type 0
  Before this names others =
      (post : List Str) × (names ≡ others ++ this ∷ post) × All (Earlier this) others

  add_other-Before :
      (this name : Str) (names : List Str) (found : Option Target) (rest : Outcome (List Str))
      (others : List Str)
      → lookup name targets ≡ found
      → name ≢ this
      → ((more : List Str) → rest ≡ ok more → Before this names more)
      → add_other targets found name rest ≡ ok others
      → Before this (name ∷ names) others
  unfolding add_other
  add_other-Before this name names none rest others l ne later h = cc h
  add_other-Before this name names (some sub) (error e) others l ne later h = cc h
  add_other-Before this name names (some sub) (ok more) others l ne later h =
      let (post, e, a) = later more refl in
      let b : Before this (name ∷ names) (name ∷ more) =
        (post, ap (λ x. name ∷ x) e, ((ne, sub, l), a)) in
      subst (Before this (name ∷ names)) (ok-injective _ _ h) b

  before-Before :
      (this : Str) (names others : List Str)
      → before targets this names ≡ ok others
      → Before this names others
  unfolding before
  before-Before this [] others h = cc h
  before-Before this (name ∷ names) others h = elim (Bool-cases (str_eq name this)) [
    | inl e ↦
        let b : Before this (name ∷ names) [] =
          (names, ap (λ x. x ∷ names) ((str_eq_iff name this).0 e), tt) in
        subst (Before this (name ∷ names)) (ok-injective _ _ (rw e at h)) b
    | inr e ↦
        add_other-Before this name names (lookup name targets) (before targets this names) others
          refl (λ p. cc ((str_eq_iff name this).1 p, e)) (before-Before this names) (rw e at h)
  ]

  -- A subtarget that is linked points to its metatarget, and its previous subtargets are those that
  -- the metatarget names before it, in that order; each is a target of the environment.
  pub init_as_sub_target-Before :
      (t t' : Target)
      → is_empty t.meta_name ≡ false
      → init_as_sub_target targets t ≡ ok t'
      → (m : Target) × (lookup t.meta_name targets ≡ some m)
        × (t'.meta_target ≡ some t.meta_name)
        × Before t.name m.sub_names t'.previous
  unfolding init_as_sub_target link_to link
  init_as_sub_target-Before t t' n h =
      go (lookup t.meta_name targets) refl (rw (n, init_as_sub_target) at h)
    where
      linked :
          (m : Target) (r : Outcome (List Str))
          → lookup t.meta_name targets ≡ some m
          → before targets t.name m.sub_names ≡ r
          → link targets t t.meta_name r ≡ ok t'
          → (m : Target) × (lookup t.meta_name targets ≡ some m)
            × (t'.meta_target ≡ some t.meta_name)
            × Before t.name m.sub_names t'.previous
      linked m (error x) l b e = cc e
      linked m (ok others) l b e =
          let q = ok-injective _ _ e in
          (
            m,
            l,
            ap (λ (x : Target). x.meta_target) (sym q),
            subst (λ (x : Target). Before t.name m.sub_names x.previous) q
                (before-Before t.name m.sub_names others b),
          )

      go :
          (r : Option Target)
          → lookup t.meta_name targets ≡ r
          → link_to targets t r ≡ ok t'
          → (m : Target) × (lookup t.meta_name targets ≡ some m)
            × (t'.meta_target ≡ some t.meta_name)
            × Before t.name m.sub_names t'.previous
      go none l e = cc e
      go (some m) l e = linked m (before targets t.name m.sub_names) l refl e

  -- What a metatarget asks of a subtarget.
  abbrev pub Fits : Target → Str → Type 0
  Fits t name =
      (sub : Target) × (lookup name targets ≡ some sub)
      × (sub.requires_userland ≡ t.requires_userland)
      × (sub.kconfig ≡ t.kconfig)
      × (sub.kind ≡ t.kind)

  abbrev points_of : Option Target → ℕ
  points_of none = 0
  points_of (some sub) = sub.points

  -- The points of the target of this name.
  abbrev pub worth : Str → ℕ
  worth name = points_of (lookup name targets)

  -- All names fit, and the sum of their points was taken from `points` on.
  record Taken (t : Target) (names : List Str) (points : ℕ) (done : List Str) (p : ℕ)
      (subs : List Str) : Type 0 where
    all_subs : subs ≡ done ++ names
    fit : All (Fits t) names
    total : p ≡ (points + sum_by worth names) % 2 ^ 64

  mismatch-Fits :
      (t sub : Target)
      → mismatch targets t sub ≡ none
      → (sub.requires_userland ≡ t.requires_userland)
        × (sub.kconfig ≡ t.kconfig)
        × (sub.kind ≡ t.kind)
  unfolding mismatch
  mismatch-Fits t sub h = (
    ground arith,
    ground (arith, str_eq_iff sub.kconfig t.kconfig),
    ground (arith, str_eq_iff sub.kind t.kind),
  )

  more-Taken :
      (t : Target) (name : Str) (names : List Str) (points : ℕ) (done : List Str) (p : ℕ)
      (subs : List Str) (sub : Target)
      → lookup name targets ≡ some sub
      → mismatch targets t sub ≡ none
      → Taken t names (add64 points sub.points) (done ++ name ∷ []) p subs
      → Taken t (name ∷ names) points done p subs
  unfolding add64
  more-Taken t name names points done p subs sub l m v = record {
    all_subs = v.all_subs ∙ append_assoc done (name ∷ []) names;
    fit = (let (u, k, y) = mismatch-Fits t sub m in (sub, l, u, k, y), v.fit);
    total = let e : worth name ≡ sub.points = ap points_of l in omega (arith, v.total, e);
  }

  take_subs-Taken :
      (t : Target) (names : List Str) (points : ℕ) (done : List Str) (p : ℕ) (subs : List Str)
      → points < 2 ^ 64
      → take_subs targets t names points done ≡ ok (p, subs)
      → Taken t names points done p subs
  unfolding take_subs
  take_subs-Taken t [] points done p subs lt h =
      let q = ok-injective _ _ h in
      record {
        all_subs = ap (λ (x : ℕ × List Str). x.1) (sym q) ∙ sym (append-nil done);
        fit = tt;
        total = let e : points ≡ p = ap (λ (x : ℕ × List Str). x.0) q in omega (arith, e, lt);
      }
  take_subs-Taken t (name ∷ names) points done p subs lt h =
      elim (Option-cases (lookup name targets)) [
        | inl l ↦ cc (rw (l, take_subs) at h)
        | inr (sub, l) ↦ elim (Option-cases (mismatch targets t sub)) [
          | inr (e, m) ↦ cc (rw (l, m, take_subs) at h)
          | inl m ↦ more-Taken t name names points done p subs sub l m (
              take_subs-Taken t names _ _ p subs (add64-lt points sub.points)
                (rw (l, m, take_subs) at h))
        ]
      ]

  -- A metatarget that is linked has its subtargets' names as its previous subtargets, in order. All
  -- are targets with its userland flag, kernel configuration and type, and its points are the sum of
  -- theirs, modulo 2 ^ 64.
  pub init_as_meta_target-Fits :
      (t t' : Target)
      → init_as_meta_target targets t ≡ ok t'
      → (t'.previous ≡ t.sub_names)
        × All (Fits t) t.sub_names
        × (t.points ≡ sum_by worth t.sub_names % 2 ^ 64)
  unfolding init_as_meta_target check_points
  init_as_meta_target-Fits t t' h =
      go (take_subs targets t t.sub_names 0 []) refl
        (guards (not t.is_meta) (not (is_empty t.tests)) (is_empty t.sub_names) h)
    where
      guards :
          (a b c : Bool) {x : Outcome Target}
          → (if a
              then error not_meta
              else if b
              then error has_tests
              else if c
              then error no_subtargets
              else x)
            ≡ ok t'
          → x ≡ ok t'
      guards true b c e = cc e
      guards false true c e = cc e
      guards false false true e = cc e
      guards false false false e = e

      go :
          (r : Outcome (ℕ × List Str))
          → take_subs targets t t.sub_names 0 [] ≡ r
          → check_points targets t r ≡ ok t'
          → (t'.previous ≡ t.sub_names)
            × All (Fits t) t.sub_names
            × (t.points ≡ sum_by worth t.sub_names % 2 ^ 64)
      go (error x) q e = cc e
      go (ok (p, subs)) q e = elim (Bool-cases (p == t.points)) [
        | inr n ↦ cc (rw n at e)
        | inl y ↦
            let v = take_subs-Taken t t.sub_names 0 [] p subs (omega arith) q in
            let z : record t { previous = subs } ≡ t' = ok-injective _ _ (rw y at e) in
            (
              ap (λ (x : Target). x.previous) (sym z) ∙ v.all_subs,
              v.fit,
              omega (arith, v.total, (==_iff p t.points).0 y),
            )
      ]
