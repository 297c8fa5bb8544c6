-- ===== src/Admission/Roles.antt =====
-- What the loops over the cached flags find for users whose roles are known.
use test.Base.{
  is_empty, suc, ◌≡◌, refl, sym, ap, ◌∙◌, Bool, true, false, List, [], ◌∷◌, some, length, ◌==◌,
  if◌then◌else◌, arith, All,
}
use test.Admission.{first_is_staff, SubmissionUserInfo, PersistenceManager, is_staff, all_staff}
use test.Admission.Users.{Role, Roles, marked, trues, trues-le, plus, plus-trues, plus-if}

module _ (p : PersistenceManager) where
  -- Once the flags are cached, the loops of the server ask whether all users are staff.
  pub all_staff-marked :
      (us : List SubmissionUserInfo) (bs : List Bool)
      → Roles p us bs
      → (all_staff (some p) (marked us bs)).0 ≡ (length us == trues bs)
  unfolding all_staff is_staff
  all_staff-marked [] [] h = ground arith
  all_staff-marked [] (b ∷ bs) h = absurd h
  all_staff-marked (u ∷ us) [] h = absurd h
  all_staff-marked (u ∷ us) (true ∷ bs) h = ground (arith, all_staff-marked us bs h.1)
  all_staff-marked (u ∷ us) (false ∷ bs) h = ground (arith, trues-le p us bs h.1)

  pub all_staff-kept :
      (us : List SubmissionUserInfo) (bs : List Bool)
      → (all_staff (some p) (marked us bs)).1 ≡ marked us bs
  unfolding all_staff is_staff
  all_staff-kept [] bs = refl
  all_staff-kept (u ∷ us) [] = refl
  all_staff-kept (u ∷ us) (true ∷ bs) =
      ap (λ ss. record { email = u.email; token = u.token; cached = 2 } ∷ ss) (all_staff-kept us bs)
  all_staff-kept (u ∷ us) (false ∷ bs) = refl

  pub length-marked :
      (us : List SubmissionUserInfo) (bs : List Bool)
      → Roles p us bs
      → length (marked us bs) ≡ length us
  length-marked [] bs h = refl
  length-marked (u ∷ us) [] h = absurd h
  length-marked (u ∷ us) (b ∷ bs) h = ap suc (length-marked us bs h.1)

  pub all_students :
      (us : List SubmissionUserInfo) (bs : List Bool)
      → Roles p us bs
      → trues bs ≡ 0
      → All (Role p false) us
  all_students [] bs h e = tt
  all_students (u ∷ us) [] h e = absurd h
  all_students (u ∷ us) (true ∷ bs) h e = absurd (omega (arith, e))
  all_students (u ∷ us) (false ∷ bs) h e = (h.0, all_students us bs h.1 e)

  pub all_staff_members :
      (us : List SubmissionUserInfo) (bs : List Bool)
      → Roles p us bs
      → trues bs ≡ length us
      → All (Role p true) us
  all_staff_members [] bs h e = tt
  all_staff_members (u ∷ us) [] h e = absurd h
  all_staff_members (u ∷ us) (true ∷ bs) h e = (h.0, all_staff_members us bs h.1 (omega (arith, e)))
  all_staff_members (u ∷ us) (false ∷ bs) h e = absurd (omega (arith, e, trues-le p us bs h.1))

  pub same-Role :
      (b : Bool) (us : List SubmissionUserInfo)
      → All (Role p b) us
      → (bs : List Bool) × Roles p us bs × (trues bs ≡ (if b then length us else 0))
  same-Role b [] h = ([], tt, ground arith)
  same-Role b (u ∷ us) h =
      let (bs, roles, e) = same-Role b us h.1 in
      (
        b ∷ bs,
        (h.0, roles),
        sym (plus-trues b (trues bs) bs refl) ∙ ap (plus b) e ∙ plus-if b (length us),
      )

  pub first-staff :
      (us : List SubmissionUserInfo) (bs : List Bool)
      → Roles p us bs
      → is_empty us ≡ false
      → trues bs ≡ length us
      → first_is_staff (some p) (marked us bs) ≡ true
  unfolding is_staff
  first-staff [] bs h e n = cc e
  first-staff (u ∷ us) [] h e n = absurd h
  first-staff (u ∷ us) (true ∷ bs) h e n = refl
  first-staff (u ∷ us) (false ∷ bs) h e n = absurd (omega (arith, n, trues-le p us bs h.1))

  pub first-student :
      (us : List SubmissionUserInfo) (bs : List Bool)
      → Roles p us bs
      → trues bs ≡ 0
      → first_is_staff (some p) (marked us bs) ≡ false
  unfolding is_staff
  first-student [] bs h n = refl
  first-student (u ∷ us) [] h n = absurd h
  first-student (u ∷ us) (true ∷ bs) h n = absurd (omega (arith, n))
  first-student (u ∷ us) (false ∷ bs) h n = refl
