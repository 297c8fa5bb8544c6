-- ===== src/Admission/Groups.antt =====
-- When the users of a request are let through.
use test.Base.{
  ℕ, ◌≡◌, ◌⊎◌, refl, sym, ap, subst, ◌∙◌, inl, inr, Bool, true, false, not, ◌&&◌, ◌||◌, List, [],
  Option, none, some, is_empty, length, ltb, ◌==◌, if◌then◌else◌, arith, Bool-cases, All,
}
use test.Admission.{
  first_is_staff, SubmissionUserInfo, Student, PersistenceManager, Refusal, Result, refused, passed,
  validate_user_records, count_staff, all_or_nothing, users_of, check_flags, validate_users,
  all_staff, mixed_staff, no_users,
}
use test.Admission.Users.{
  Known, Role, Roles, marked, trues, passed_inj, records-Known, Known-records, count_staff-Roles,
  Roles-count_staff, trues-le,
}
use test.Admission.Roles.{
  first-staff, first-student, all_staff-marked, all_staff-kept, length-marked, all_students,
  all_staff_members, same-Role,
}

-- The users are those that the database knows, and they are all staff, or all students where students
-- may submit. Without a database that can be read there is nothing to check.
abbrev pub Permitted : Option PersistenceManager → Bool → List SubmissionUserInfo → Type 0
Permitted none staff_needed us = Unit
Permitted (some p) staff_needed us =
    (p.can_retrieve ≡ false)
    ⊎ (All (Known p) us × (All (Role p true) us ⊎ (All (Role p false) us × (staff_needed ≡ false))))

pub refuse_guard :
    {A : Type 0} (b : Bool) (x : Refusal) (r : Result A) (a : A)
    → (if b then refused x else r) ≡ passed a
    → (b ≡ false) × (r ≡ passed a)
refuse_guard true x r a h = absurd (cc h)
refuse_guard false x r a h = (refl, h)

flags_passed :
    (p : Option PersistenceManager) (r : Result (List Student)) (ss : List Student)
    → check_flags p r ≡ passed ss
    → (qs : List Student) × (n : ℕ) × (r ≡ passed qs)
      × (count_staff p qs ≡ passed (n, ss))
      × ((ltb 0 n && ltb n (length ss)) ≡ false)
flags_passed p (refused e) ss h = absurd (cc h)
flags_passed p (passed qs) ss h =
    let (n, e, k) = counted (count_staff p qs) ss h in (qs, n, refl, e, k)
  where
    counted :
        (r : Result (ℕ × List Student)) (ss : List Student)
        → all_or_nothing r ≡ passed ss
        → (n : ℕ) × (r ≡ passed (n, ss)) × ((ltb 0 n && ltb n (length ss)) ≡ false)
    counted (refused e) ss h = absurd (cc h)
    counted (passed (n, ts)) ss h =
        let (b, k) = refuse_guard _ _ _ _ h in
        let e : ts ≡ ss = passed_inj k in
        (n, (λ i. passed (n, e i)), (subst (λ x. (ltb 0 n && ltb n (length x)) ≡ false) e b))

-- What is known of users that are let through.
-- Whether the first student is staff, for users that are let through.
abbrev pub Kind : Option PersistenceManager → List SubmissionUserInfo → List Student → Type 0
Kind none us ss = first_is_staff none ss ≡ false
Kind (some p) us ss =
    ((p.can_retrieve ≡ false) × (first_is_staff (some p) ss ≡ false))
    ⊎ ((first_is_staff (some p) ss ≡ true) × All (Role p true) us)
    ⊎ ((first_is_staff (some p) ss ≡ false) × All (Role p false) us)

abbrev pub Through :
    Option PersistenceManager → List SubmissionUserInfo → List Student → Bool → Type 0
Through p us ss c =
    (a : Bool) × (all_staff p ss ≡ (a, ss))
    × (((a || not c) ≡ true) → Permitted p c us)
    × Kind p us ss

unread :
    (p : Option PersistenceManager) (us : List SubmissionUserInfo) (ss : List Student) (c : Bool)
    → Permitted p c us
    → ss ≡ []
    → Kind p us []
    → Through p us ss c
unfolding all_staff
unread p us ss c g e k = (true, rw e refl, (λ h. g), subst (Kind p us) (sym e) k)

module _ (p : PersistenceManager) (us : List SubmissionUserInfo) (c : Bool) where
  read :
      (bs : List Bool)
      → All (Known p) us
      → Roles p us bs
      → ((ltb 0 (trues bs) && ltb (trues bs) (length us)) ≡ false)
      → is_empty us ≡ false
      → Through (some p) us (marked us bs) c
  read bs known roles one_kind full = (
    length us == trues bs,
    (λ i. (all_staff-marked p us bs roles i, all_staff-kept p us bs i)),
    (λ h. inr (
      known,
      elim (Bool-cases (length us == trues bs)) [
        | inl e ↦ inl (all_staff_members p us bs roles (ground arith))
        | inr e ↦
            inr (all_students p us bs roles (ground (arith, trues-le p us bs roles)), ground arith)
      ],
    )),
    inr (elim (Bool-cases (length us == trues bs)) [
      | inl e ↦ inl (
        first-staff p us bs roles full (ground arith),
        all_staff_members p us bs roles (ground arith),
      )
      | inr e ↦
          let none_staff : trues bs ≡ 0 = ground (arith, trues-le p us bs roles) in
          inr (first-student p us bs roles none_staff, all_students p us bs roles none_staff)
    ]),
  )

pub validate_users-Through :
    (p : Option PersistenceManager) (us : List SubmissionUserInfo) (ss : List Student) (c : Bool)
    → validate_users p us ≡ passed ss
    → (is_empty us ≡ false) × Through p us ss c
unfolding validate_users users_of count_staff
validate_users-Through none us ss c h =
    let (e, k) = refuse_guard _ _ _ _ h in (e, unread none us ss c tt (sym (passed_inj k)) refl)
validate_users-Through (some p) us ss c h =
    let (e, k) =
      refuse_guard (is_empty us) no_users (check_flags (some p) (users_of (some p) us)) ss h in
    let (qs, n, hq, hn, b) = flags_passed (some p) (users_of (some p) us) ss k in
    (
      e,
      elim (Bool-cases p.can_retrieve) [
        | inr f ↦
            let none_read : [] ≡ qs = passed_inj (rw f at hq) in
            let counted : passed (0, []) ≡ passed (n, ss) =
              subst (λ x. count_staff (some p) x ≡ passed (n, ss)) (sym none_read) hn in
            unread (some p) us ss c (inl f) (ap (λ x. x.1) (passed_inj (sym counted)))
              (inl (f, refl))
        | inl f ↦
            let (known, own) = records-Known p us qs (rw f at hq) in
            let (bs, roles, hm, hs) =
              count_staff-Roles p f us n ss
                (subst (λ x. count_staff (some p) x ≡ passed (n, ss)) own hn) in
            subst (λ x. Through (some p) us x c) (sym hs)
              (read p us c bs known roles
                (let size : length ss ≡ length us = ap length hs ∙ length-marked p us bs roles in
                  sym (λ i. ltb 0 (hm i) && ltb (hm i) (size i)) ∙ b)
                e)
      ],
    )

-- Users that may submit are let through, and to the target if only staff may submit to it.
abbrev pub Served : Option PersistenceManager → List SubmissionUserInfo → Bool → Type 0
Served p us c =
    (ss : List Student) × (a : Bool) × (validate_users p us ≡ passed ss)
    × (all_staff p ss ≡ (a, ss))
    × ((a || not c) ≡ true)

module _ (p : PersistenceManager) (us : List SubmissionUserInfo) (c : Bool)
    (e : is_empty us ≡ false) where
  Permitted-marked :
      (f : p.can_retrieve ≡ true) (bs : List Bool)
      → All (Known p) us
      → Roles p us bs
      → ((ltb 0 (trues bs) && ltb (trues bs) (length us)) ≡ false)
      → (((length us == trues bs) || not c) ≡ true)
      → Served (some p) us c
  unfolding validate_users users_of
  Permitted-marked f bs known roles one_kind may = (
    marked us bs,
    length us == trues bs,
    (λ i.
          if e i
          then refused no_users
          else check_flags (some p) (if f i then validate_user_records p us else passed []))
        ∙ (λ i. check_flags (some p) (Known-records p us known i))
        ∙ (λ i. all_or_nothing (Roles-count_staff p f us bs roles i))
        ∙ (λ i.
            if ltb 0 (trues bs) && ltb (trues bs) (length-marked p us bs roles i)
            then refused mixed_staff
            else passed (marked us bs))
        ∙ (λ i. if one_kind i then refused mixed_staff else passed (marked us bs)),
    (λ i. (all_staff-marked p us bs roles i, all_staff-kept p us bs i)),
    may,
  )

pub Permitted-Served :
    (p : Option PersistenceManager) (us : List SubmissionUserInfo) (c : Bool)
    → is_empty us ≡ false
    → Permitted p c us
    → Served p us c
unfolding validate_users users_of count_staff all_staff
Permitted-Served none us c e g = ([], true, rw e refl, refl, refl)
Permitted-Served (some p) us c e (inl f) = ([], true, rw (e, f) refl, refl, refl)
Permitted-Served (some p) us c e (inr (known, roles)) = elim (Bool-cases p.can_retrieve) [
  | inr f ↦ ([], true, rw (e, f) refl, refl, refl)
  | inl f ↦ elim roles [
    | inl r ↦
        let (bs, rs, h) = same-Role p true us r in
        Permitted-marked p us c e f bs known rs (ground (arith, h)) (ground (arith, h))
    | inr (r, k) ↦
        let (bs, rs, h) = same-Role p false us r in
        Permitted-marked p us c e f bs known rs (ground (arith, h)) (ground (arith, h))
  ]
]
