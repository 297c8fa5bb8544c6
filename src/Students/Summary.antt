-- ===== src/Students/Summary.antt =====
-- What the entry of a target says after a student's submissions.
use test.Base.{
  add64, ℕ, ◌+◌, ◌^◌, ◌≤◌, ◌<◌, ◌≡◌, ◌⊎◌, refl, sym, inl, inr, Bool, true, false, ◌&&◌, ◌||◌, List,
  [], ◌∷◌, ◌++◌, Str, codes, str_eq, str_eq_refl, ltb, ◌==◌, length, All, All-append, sum_by,
  sum_by-append, if◌then◌else◌, arith, Bool-cases,
}
use test.Submissions.{valid_result}
use test.Students.{Floats, TargetStats, Finished, score_result, count_submission, update_entry}

-- Some entry of the list has the property.
module _ {ℓ} {A : Type ℓ} (P : A → Type 0) where
  abbrev pub Any : List A → Type 0
  Any [] = ⊥
  Any (x ∷ xs) = P x ⊎ Any xs

  Any-append : (xs ys : List A) → Any xs → Any (xs ++ ys)
  Any-append [] ys h = absurd h
  Any-append (x ∷ xs) ys (inl h) = inl h
  Any-append (x ∷ xs) ys (inr h) = inr (Any-append xs ys h)

  Any-last : (xs : List A) (y : A) → P y → Any (xs ++ y ∷ [])
  Any-last [] y h = inl h
  Any-last (x ∷ xs) y h = inr (Any-last xs y h)

All-map {ℓ κ} :
    {A : Type ℓ} (P Q : A → Type κ) (xs : List A) → ((x : A) → P x → Q x) → All P xs → All Q xs
All-map P Q [] f h = tt
All-map P Q (x ∷ xs) f h = (f x h.0, All-map P Q xs f h.1)

All-init {ℓ κ} :
    {A : Type ℓ} (P : A → Type κ) (xs : List A) (y : A) → All P (xs ++ y ∷ []) → All P xs × P y
All-init P [] y h = (tt, h.0)
All-init P (x ∷ xs) y h = let (a, b) = All-init P xs y h.1 in ((h.0, a), b)

abbrev pub one_if : Bool → ℕ
one_if true = 1
one_if false = 0

count-le {ℓ} :
    {A : Type ℓ} (test : A → Bool) (xs : List A) → sum_by (λ x. one_if (test x)) xs ≤ length xs
count-le test [] = omega arith
count-le test (x ∷ xs) = ground (arith, count-le test xs)

module _ (floats : Floats) (name : Str) where
  -- The submissions for the target, and those of them that count for its scores.
  abbrev pub is_for : Finished floats → Bool
  is_for f = str_eq f.submission.target_name name

  abbrev pub counts : Finished floats → Bool
  counts f = is_for f && valid_result f.submission

  abbrev pub score_of : Finished floats → ℕ
  score_of f = f.submission.score

  -- The entry for a target with assignment scoring says: how many submissions there were, how many of
  -- them count, the highest score of these, and, if none of them is 0, the lowest.
  pub record Summary (fs : List (Finished floats)) (t : TargetStats floats) : Type 0 where
    pub total : t.total_submissions ≡ sum_by (λ (f : Finished floats). one_if (is_for f)) fs
    pub complete : t.total_complete ≡ sum_by (λ (f : Finished floats). one_if (counts f)) fs
    pub at_most : All (λ (f : Finished floats). counts f ≡ true → score_of f ≤ t.high_score) fs
    pub reached :
        (t.high_score ≡ 0)
        ⊎ Any (λ (f : Finished floats). (counts f ≡ true) × (score_of f ≡ t.high_score)) fs
    pub lowest :
        All (λ (f : Finished floats). counts f ≡ true → 0 < score_of f) fs
        → All (λ (f : Finished floats). counts f ≡ true → t.low_score ≤ score_of f) fs
          × (((t.low_score ≡ 0) × All (λ (f : Finished floats). counts f ≡ false) fs)
              ⊎ Any (λ (f : Finished floats). (counts f ≡ true) × (score_of f ≡ t.low_score)) fs)

  count_snoc :
      (test : Finished floats → Bool) (fs : List (Finished floats)) (f : Finished floats)
      → sum_by (λ (x : Finished floats). one_if (test x)) (fs ++ f ∷ [])
        ≡ sum_by (λ (x : Finished floats). one_if (test x)) fs + one_if (test f)
  count_snoc test fs f =
      omega (arith, sum_by-append (λ (x : Finished floats). one_if (test x)) fs (f ∷ []))

  positive :
      (fs : List (Finished floats)) (low : ℕ)
      → All (λ (f : Finished floats). counts f ≡ true → 0 < score_of f) fs
      → Any (λ (f : Finished floats). (counts f ≡ true) × (score_of f ≡ low)) fs
      → 0 < low
  positive [] low p h = absurd h
  positive (f ∷ fs) low p (inl h) = omega (arith, p.0 h.0, h.1)
  positive (f ∷ fs) low p (inr h) = positive fs low p.1 h

  module _ (fs : List (Finished floats)) (f : Finished floats) (t : TargetStats floats)
      (s : Summary fs t) (short : length fs + 1 < 2 ^ 64) where
    -- A submission for another target.
    pub other-Summary : is_for f ≡ false → Summary (fs ++ f ∷ []) t
    other-Summary h = record {
      total = ground (arith, count_snoc is_for fs f, s.total);
      complete = ground (arith, count_snoc counts fs f, s.complete);
      at_most = All-append _ fs (f ∷ []) s.at_most (λ c. cc, tt);
      reached = elim s.reached [ inl z ↦ inl z | inr a ↦ inr (Any-append _ fs _ a) ];
      lowest = λ p.
          let (a, b) = s.lowest (All-init _ fs f p).0 in
          (
            All-append _ fs (f ∷ []) a (λ c. cc, tt),
            elim b [
              | inl z ↦ inl (z.0, All-append _ fs (f ∷ []) z.1 (ground arith, tt))
              | inr a ↦ inr (Any-append _ fs _ a)
            ],
          );
    }

    module _ (asst : t.target_type ≡ codes "asst") (here : is_for f ≡ true) where
      abbrev valid : Bool
      valid = valid_result f.submission

      abbrev u : TargetStats floats
      u = update_entry floats f t

      entry : u ≡ (
          if valid
          then score_result floats f (count_submission floats f.submission t)
          else count_submission floats f.submission t)
      unfolding update_entry count_submission
      entry = rw asst (rw str_eq_refl refl)

      total_lem : u.total_submissions ≡ t.total_submissions + 1
      unfolding score_result count_submission add64
      total_lem = rw entry (ground (arith, s.total, count-le is_for fs))

      complete_lem : u.total_complete ≡ t.total_complete + one_if valid
      unfolding score_result count_submission add64
      complete_lem = rw entry (ground (arith, s.complete, count-le counts fs))

      high_lem :
          u.high_score
          ≡ (if valid && ltb t.high_score (score_of f) then score_of f else t.high_score)
      unfolding score_result count_submission
      high_lem = rw entry (ground arith)

      low_lem : u.low_score ≡ (
          if valid && (t.low_score == 0 || ltb (score_of f) t.low_score)
          then score_of f
          else t.low_score)
      unfolding score_result count_submission
      low_lem = rw entry (ground arith)

      at_most_lem :
          All (λ (x : Finished floats). counts x ≡ true → score_of x ≤ u.high_score) (fs ++ f ∷ [])
      at_most_lem =
          All-append _ fs (f ∷ [])
            (All-map _ _ fs (λ x h c. ground (arith, high_lem, h c)) s.at_most)
            (λ c. ground (arith, high_lem), tt)

      reached_lem :
          (u.high_score ≡ 0)
          ⊎ Any
              (λ (x : Finished floats). (counts x ≡ true) × (score_of x ≡ u.high_score))
              (fs ++ f ∷ [])
      reached_lem = elim (Bool-cases (valid && ltb t.high_score (score_of f))) [
        | inl h ↦ inr (Any-last _ fs f (ground arith, ground (arith, high_lem)))
        | inr h ↦
            let same : u.high_score ≡ t.high_score = ground (arith, high_lem) in
            rw same (elim s.reached [ inl z ↦ inl z | inr a ↦ inr (Any-append _ fs _ a) ])
      ]

      -- A counted submission behind others that count.
      lower :
          valid ≡ true
          → All (λ (x : Finished floats). counts x ≡ true → t.low_score ≤ score_of x) fs
          → Any (λ (x : Finished floats). (counts x ≡ true) × (score_of x ≡ t.low_score)) fs
          → 0 < t.low_score
          → All (λ (x : Finished floats). counts x ≡ true → u.low_score ≤ score_of x) (fs ++ f ∷ [])
            × (((u.low_score ≡ 0) × All (λ (x : Finished floats). counts x ≡ false) (fs ++ f ∷ []))
                ⊎ Any
                    (λ (x : Finished floats). (counts x ≡ true) × (score_of x ≡ u.low_score))
                    (fs ++ f ∷ []))
      lower v a c pos = elim (Bool-cases (ltb (score_of f) t.low_score)) [
        | inl l ↦
            let low : u.low_score ≡ score_of f = ground (arith, low_lem) in
            (
              rw low (
                  All-append _ fs (f ∷ []) (All-map _ _ fs (λ x h k. ground (arith, h k)) a)
                    (λ k. omega arith, tt)),
              inr (Any-last _ fs f (ground arith, sym low)),
            )
        | inr l ↦
            let same : u.low_score ≡ t.low_score = ground (arith, low_lem) in
            (
              rw same (All-append _ fs (f ∷ []) a (λ k. ground arith, tt)),
              inr (rw same (Any-append _ fs _ c)),
            )
      ]

      lowest_lem :
          All (λ (x : Finished floats). counts x ≡ true → 0 < score_of x) (fs ++ f ∷ [])
          → All (λ (x : Finished floats). counts x ≡ true → u.low_score ≤ score_of x) (fs ++ f ∷ [])
            × (((u.low_score ≡ 0) × All (λ (x : Finished floats). counts x ≡ false) (fs ++ f ∷ []))
                ⊎ Any
                    (λ (x : Finished floats). (counts x ≡ true) × (score_of x ≡ u.low_score))
                    (fs ++ f ∷ []))
      lowest_lem p =
          let (before, now) = All-init _ fs f p in
          let (a, b) = s.lowest before in
          elim (Bool-cases valid) [
            | inr v ↦
                let same : u.low_score ≡ t.low_score = ground (arith, low_lem) in
                (
                  rw same (All-append _ fs (f ∷ []) a (λ c. cc, tt)),
                  rw same (elim b [
                    | inl z ↦ inl (z.0, All-append _ fs (f ∷ []) z.1 (ground arith, tt))
                    | inr c ↦ inr (Any-append _ fs _ c)
                  ]),
                )
            | inl v ↦ elim b [
              | inl z ↦
                  let low : u.low_score ≡ score_of f = ground (arith, low_lem, z.0) in
                  (
                    rw low (
                        All-append _ fs (f ∷ []) (All-map _ _ fs (λ x n c. cc) z.1)
                          (λ c. omega arith, tt)),
                    inr (Any-last _ fs f (ground arith, sym low)),
                  )
              | inr c ↦ lower v a c (positive fs t.low_score before c)
            ]
          ]

      pub added-Summary : Summary (fs ++ f ∷ []) u
      added-Summary = record {
        total = ground (arith, count_snoc is_for fs f, s.total, total_lem);
        complete = ground (arith, count_snoc counts fs f, s.complete, complete_lem);
        at_most = at_most_lem;
        reached = reached_lem;
        lowest = lowest_lem;
      }
