-- ===== src/Admission/Users.antt =====
-- What the database must hold for the users of a request to be let through.
use test.Base.{
  ℕ, zero, suc, ◌≤◌, ◌≡◌, refl, sym, ap, ◌∙◌, inl, inr, Bool, true, false, List, [], ◌∷◌, Option,
  none, some, str_eq, str_eq_iff, str_eq_refl, length, ltb, if◌then◌else◌, arith, Bool-cases, All,
  map,
}
use test.Admission.{
  SubmissionUserInfo, Student, PersistenceManager, Result, refused, passed, retrieved, authenticate,
  get_student, add_student, validate_user_records, staff_found, is_staff, tally, count_staff,
}

-- The database has one record for the user's email and token, with this email and this token.
abbrev pub Known : PersistenceManager → SubmissionUserInfo → Type 0
Known p u = p.students u.email u.token ≡ some (record { email = u.email; token = u.token } ∷ [])

-- The database says whether the user is staff.
abbrev pub Role : PersistenceManager → Bool → SubmissionUserInfo → Type 0
Role p b u = (n : ℕ) × (p.staff u.email ≡ some n) × (ltb 0 n ≡ b)

abbrev pub Roles : PersistenceManager → List SubmissionUserInfo → List Bool → Type 0
Roles p [] [] = Unit
Roles p [] (b ∷ bs) = ⊥
Roles p (u ∷ us) [] = ⊥
Roles p (u ∷ us) (b ∷ bs) = Role p b u × Roles p us bs

-- The students after their flags are cached.
abbrev pub marked : List SubmissionUserInfo → List Bool → List Student
marked [] bs = []
marked (u ∷ us) [] = []
marked (u ∷ us) (b ∷ bs) =
    record { email = u.email; token = u.token; cached = if b then 2 else 1 } ∷ marked us bs

abbrev pub trues : List Bool → ℕ
trues [] = 0
trues (true ∷ bs) = suc (trues bs)
trues (false ∷ bs) = trues bs

abbrev passed_or : {A : Type 0} → A → Result A → A
passed_or a (refused e) = a
passed_or a (passed b) = b

pub passed_inj : {A : Type 0} {a b : A} → passed a ≡ passed b → a ≡ b
passed_inj {a = a} h = ap (passed_or a) h

authenticate_passed :
    (u : SubmissionUserInfo) (o : Option (List SubmissionUserInfo)) (s : Student)
    → authenticate u o ≡ passed s
    → (o ≡ some (record { email = u.email; token = u.token } ∷ [])) × (s ≡ retrieved u)
unfolding authenticate
authenticate_passed u none s h = absurd (cc h)
authenticate_passed u (some []) s h = absurd (cc h)
authenticate_passed u (some (r ∷ [])) s h = elim (Bool-cases (str_eq r.email u.email)) [
  | inr e ↦ absurd (cc (rw e at h))
  | inl e ↦ elim (Bool-cases (str_eq r.token u.token)) [
    | inr f ↦ absurd (cc (rw (e, f) at h))
    | inl f ↦
        let p : r.email ≡ u.email = (str_eq_iff _ _).0 e in
        let q : r.token ≡ u.token = (str_eq_iff _ _).0 f in
        let k : passed (retrieved r) ≡ passed s = rw (e, f) at h in
        (
          λ i. some (record { email = p i; token = q i } ∷ []),
          sym (passed_inj k) ∙ (λ i. retrieved (record { email = p i; token = q i })),
        )
  ]
]
authenticate_passed u (some (r ∷ q ∷ rs)) s h = absurd (cc h)

authenticate-own :
    (u : SubmissionUserInfo)
    → authenticate u (some (record { email = u.email; token = u.token } ∷ []))
      ≡ passed (retrieved u)
unfolding authenticate
authenticate-own u = rw (str_eq_refl u.email, str_eq_refl u.token) refl

add_student-passed :
    (r : Result Student) (q : Result (List Student)) (ss : List Student)
    → add_student r q ≡ passed ss
    → (s : Student) × (qs : List Student) × (r ≡ passed s) × (q ≡ passed qs) × (ss ≡ s ∷ qs)
add_student-passed (refused e) q ss h = absurd (cc h)
add_student-passed (passed s) (refused e) ss h = absurd (cc h)
add_student-passed (passed s) (passed qs) ss h = (s, qs, refl, refl, sym (passed_inj h))

abbrev pub plus : Bool → ℕ → ℕ
plus true n = suc n
plus false n = n

tally_passed :
    (o : Option Bool × Student) (q : Result (ℕ × List Student)) (n : ℕ) (ss : List Student)
    → tally o q ≡ passed (n, ss)
    → (b : Bool) × (m : ℕ) × (ts : List Student) × ((o.0) ≡ some b)
      × (q ≡ passed (m, ts))
      × (n ≡ plus b m)
      × (ss ≡ o.1 ∷ ts)
tally_passed (none, s) q n ss h = absurd (cc h)
tally_passed (some b, s) (refused e) n ss h = absurd (cc h)
tally_passed (some true, s) (passed (m, ts)) n ss h = (
  true,
  m,
  ts,
  refl,
  refl,
  ap (λ x. x.0) (passed_inj (sym h)),
  ap (λ x. x.1) (passed_inj (sym h)),
)
tally_passed (some false, s) (passed (m, ts)) n ss h = (
  false,
  m,
  ts,
  refl,
  refl,
  ap (λ x. x.0) (passed_inj (sym h)),
  ap (λ x. x.1) (passed_inj (sym h)),
)

-- What a found record says.
found-Role :
    (u : SubmissionUserInfo) (o : Option ℕ) (b : Bool)
    → ((staff_found (retrieved u) o).0) ≡ some b
    → (n : ℕ) × (o ≡ some n) × (ltb 0 n ≡ b)
found-Role u none b h = absurd (cc h)
found-Role u (some zero) b h = (0, refl, ground arith)
found-Role u (some (suc n)) b h = (suc n, refl, ground arith)

found-marked :
    (u : SubmissionUserInfo) (o : Option ℕ) (b : Bool) (n : ℕ)
    → o ≡ some n
    → ltb 0 n ≡ b
    → staff_found (retrieved u) o
      ≡ (some b, record { email = u.email; token = u.token; cached = if b then 2 else 1 })
found-marked u o true zero e h = absurd (ground arith)
found-marked u o false zero e h = rw e refl
found-marked u o true (suc n) e h = rw e refl
found-marked u o false (suc n) e h = absurd (ground arith)

pub plus-trues : (b : Bool) (m : ℕ) (bs : List Bool) → m ≡ trues bs → plus b m ≡ trues (b ∷ bs)
plus-trues true m bs h = ap suc h
plus-trues false m bs h = h

pub plus-if : (b : Bool) (n : ℕ) → plus b (if b then n else 0) ≡ (if b then suc n else 0)
plus-if true n = refl
plus-if false n = refl

tally-mark :
    (b : Bool) (s : Student) (n : ℕ) (ss : List Student)
    → tally (some b, s) (passed (n, ss)) ≡ passed (plus b n, s ∷ ss)
tally-mark true s n ss = refl
tally-mark false s n ss = refl

module _ (p : PersistenceManager) where
  pub trues-le :
      (us : List SubmissionUserInfo) (bs : List Bool) → Roles p us bs → trues bs ≤ length us
  trues-le [] [] h = omega arith
  trues-le [] (b ∷ bs) h = absurd h
  trues-le (u ∷ us) [] h = absurd h
  trues-le (u ∷ us) (true ∷ bs) h = omega (arith, trues-le us bs h.1)
  trues-le (u ∷ us) (false ∷ bs) h = omega (arith, trues-le us bs h.1)

  pub records-Known :
      (us : List SubmissionUserInfo) (ss : List Student)
      → validate_user_records p us ≡ passed ss
      → All (Known p) us × (ss ≡ map retrieved us)
  unfolding validate_user_records get_student
  records-Known [] ss h = (tt, sym (passed_inj h))
  records-Known (u ∷ us) ss h =
      let (s, qs, hs, hq, k) =
        add_student-passed (get_student p u) (validate_user_records p us) ss h in
      let (known, own) = authenticate_passed u _ s hs in
      let (all, rest) = records-Known us qs hq in ((known, all), k ∙ (λ i. own i ∷ rest i))

  pub Known-records :
      (us : List SubmissionUserInfo)
      → All (Known p) us
      → validate_user_records p us ≡ passed (map retrieved us)
  unfolding validate_user_records get_student
  Known-records [] h = refl
  Known-records (u ∷ us) (k, h) = rw (k, authenticate-own u, Known-records us h) refl

  -- What `IsStaff` answers for a student that was just retrieved.
  is_staff-retrieved :
      p.can_retrieve ≡ true
      → (u : SubmissionUserInfo)
      → is_staff (some p) (retrieved u) ≡ staff_found (retrieved u) (p.staff u.email)
  unfolding is_staff
  is_staff-retrieved c u = rw c refl

  pub count_staff-Roles :
      p.can_retrieve ≡ true
      → (us : List SubmissionUserInfo) (n : ℕ) (ss : List Student)
      → count_staff (some p) (map retrieved us) ≡ passed (n, ss)
      → (bs : List Bool) × Roles p us bs × (n ≡ trues bs) × (ss ≡ marked us bs)
  unfolding count_staff
  count_staff-Roles c [] n ss h =
      ([], tt, ap (λ x. x.0) (passed_inj (sym h)), ap (λ x. x.1) (passed_inj (sym h)))
  count_staff-Roles c (u ∷ us) n ss h =
      let (b, m, ts, hb, hq, hn, hs) = tally_passed _ _ n ss h in
      let e = is_staff-retrieved c u in
      let (k, hk, l) = found-Role u (p.staff u.email) b (rw (← e) hb) in
      let (bs, roles, hm, ht) = count_staff-Roles c us m ts hq in
      (
        b ∷ bs,
        ((k, hk, l), roles),
        hn ∙ plus-trues b m bs hm,
        hs ∙ (λ i. ((e ∙ found-marked u (p.staff u.email) b k hk l) i).1 ∷ ht i),
      )

  pub Roles-count_staff :
      p.can_retrieve ≡ true
      → (us : List SubmissionUserInfo) (bs : List Bool) → Roles p us bs
      → count_staff (some p) (map retrieved us) ≡ passed (trues bs, marked us bs)
  unfolding count_staff
  Roles-count_staff c [] [] h = refl
  Roles-count_staff c [] (b ∷ bs) h = absurd h
  Roles-count_staff c (u ∷ us) [] h = absurd h
  Roles-count_staff c (u ∷ us) (b ∷ bs) ((k, hk, l), h) =
      let e = is_staff-retrieved c u ∙ found-marked u (p.staff u.email) b k hk l in
      (λ i. tally (e i) (Roles-count_staff c us bs h i))
      ∙ tally-mark b _ (trues bs) (marked us bs)
      ∙ ap (λ n. passed (n, marked (u ∷ us) (b ∷ bs))) (plus-trues b (trues bs) bs refl)
