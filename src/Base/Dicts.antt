-- ===== src/Base/Dicts.antt =====
-- A `map[string]V` as an association list.
use mathlib.Core.Path.{◌≡◌, refl, sym, ◌∙◌}
use mathlib.Core.Logic.{inl, inr}
use mathlib.Core.Bool.{Bool, true, false, ◌||◌}
use mathlib.Core.List.{List, [], ◌∷◌, ◌++◌}
use mathlib.Core.Option.{Option, none, some}
use native.Mathlib.Omega.{arith}
use test.Base.Tests.{if◌then◌else◌, Bool-cases, Option-cases}
use test.Base.Strings.{Str, str_eq, str_eq_iff, str_eq_refl, eq_of_str_eq}

abbrev pub Dict {ℓ} : Type ℓ → Type ℓ
Dict V = List (Str × V)

module _ {ℓ} {V : Type ℓ} where
  unfoldable pub lookup : Str → Dict V → Option V
  lookup k [] = none
  lookup k ((j, v) ∷ m) = if str_eq j k then some v else lookup k m

  unfoldable pub insert : Str → V → Dict V → Dict V
  insert k v [] = (k, v) ∷ []
  insert k v ((j, w) ∷ m) = if str_eq j k then (k, v) ∷ m else (j, w) ∷ insert k v m

  unfoldable pub delete : Str → Dict V → Dict V
  delete k [] = []
  delete k ((j, w) ∷ m) = if str_eq j k then delete k m else (j, w) ∷ delete k m

  unfoldable pub has_key : Str → Dict V → Bool
  has_key k [] = false
  has_key k ((j, w) ∷ m) = str_eq j k || has_key k m

  pub lookup-insert :
      (k j : Str) (v : V) (m : Dict V)
      → lookup j (insert k v m) ≡ (if str_eq k j then some v else lookup j m)
  unfolding lookup insert
  lookup-insert k j v [] = refl
  lookup-insert k j v ((i, w) ∷ m) =
      ground (arith, str_eq_iff k j, str_eq_iff i k, str_eq_iff i j, lookup-insert k j v m)

  pub lookup-delete :
      (k j : Str) (m : Dict V) → lookup j (delete k m) ≡ (if str_eq k j then none else lookup j m)
  unfolding lookup delete
  lookup-delete k j [] = ground arith
  lookup-delete k j ((i, w) ∷ m) =
      ground (arith, str_eq_iff k j, str_eq_iff i k, str_eq_iff i j, lookup-delete k j m)

  module _ (k : Str) (v : V) where
    pub lookup-snoc_some :
        (d : Str) (m : Dict V) (w : V) → lookup d m ≡ some w → lookup d (m ++ (k, v) ∷ []) ≡ some w
    unfolding lookup
    lookup-snoc_some d [] w h = cc
    lookup-snoc_some d ((j, x) ∷ m) w h = ground (arith, lookup-snoc_some d m w)

    pub lookup-snoc_ne :
        (d : Str) (m : Dict V) → str_eq k d ≡ false → lookup d (m ++ (k, v) ∷ []) ≡ lookup d m
    unfolding lookup
    lookup-snoc_ne d [] h = ground arith
    lookup-snoc_ne d ((j, x) ∷ m) h = ground (arith, lookup-snoc_ne d m)

    pub lookup-snoc_self : (m : Dict V) → lookup k m ≡ none → lookup k (m ++ (k, v) ∷ []) ≡ some v
    unfolding lookup
    lookup-snoc_self [] h = ground (arith, str_eq_refl k)
    lookup-snoc_self ((j, x) ∷ m) h = ground (arith, lookup-snoc_self m)

    -- Two maps that agree on a key still do after the same entry is put behind both.
    pub lookup-snoc_agree :
        (d : Str) (m n : Dict V)
        → lookup d m ≡ lookup d n
        → lookup d (m ++ (k, v) ∷ []) ≡ lookup d (n ++ (k, v) ∷ [])
    lookup-snoc_agree d m n h = elim (Option-cases (lookup d m)) [
      | inl e ↦ elim (Bool-cases (str_eq k d)) [
        | inl s ↦
            let p : k ≡ d = eq_of_str_eq k d s in
            let q : lookup k m ≡ none = rw p e in
            let q' : lookup k n ≡ none = rw p (sym h ∙ e) in
            rw (← p) (lookup-snoc_self m q ∙ sym (lookup-snoc_self n q'))
        | inr s ↦ lookup-snoc_ne d m s ∙ h ∙ sym (lookup-snoc_ne d n s)
      ]
      | inr (w, e) ↦ lookup-snoc_some d m w e ∙ sym (lookup-snoc_some d n w (sym h ∙ e))
    ]

  pub has_key_of_lookup : (k : Str) (m : Dict V) (v : V) → lookup k m ≡ some v → has_key k m ≡ true
  unfolding lookup has_key
  has_key_of_lookup k [] v h = cc
  has_key_of_lookup k ((j, w) ∷ m) v h = ground (arith, has_key_of_lookup k m v)

  pub lookup_of_has_key :
      (k : Str) (m : Dict V) → has_key k m ≡ true → (v : V) × (lookup k m ≡ some v)
  unfolding lookup has_key
  lookup_of_has_key k [] h = cc
  lookup_of_has_key k ((j, w) ∷ m) h = elim (Bool-cases (str_eq j k)) [
    | inl e ↦ (w, rw e)
    | inr e ↦ rw e (lookup_of_has_key k m (rw e at h))
  ]
