-- ===== src/Students/History.antt =====
-- The statistics after all submissions of a student.
use test.Base.{
  add64, ◌+◌, ◌^◌, ◌≤◌, ◌<◌, ◌≡◌, refl, sym, subst, ◌∙◌, inl, inr, Bool, true, false, List, [], ◌∷◌,
  ◌++◌, Option, none, some, Str, codes, str_eq, eq_of_str_eq, length, length-append, All, sum_by,
  sum_by-append, if◌then◌else◌, arith, Bool-cases, All-append,
}
use mathlib.Core.List.{append_assoc, append-nil}
use test.Submissions.{Submission}
use test.Students.{
  Floats, TargetStats, Student, Finished, new_stats, get_stat, score_result, perf_result,
  count_submission, update_entry, update_stats, update_all,
}
use test.Students.Sorting.{entry_or_new, get_stat-update_stats}
use test.Students.Summary.{Summary, is_for, counts, one_if, other-Summary, added-Summary}

module _ (floats : Floats) where
  -- The original submissions, which are not parts of a split one.
  abbrev pub is_original : Finished floats → Bool
  is_original f = str_eq f.submission.id f.orig_id

  module _ (name : Str) where
    -- What is said of a target after some submissions, by the entry for it.
    abbrev pub Says : List (Finished floats) → Option (TargetStats floats) → Type 0
    Says fs none = All (λ (f : Finished floats). is_for floats name f ≡ false) fs
    Says fs (some t) =
        Summary floats name fs t
        × (t.target_type ≡ codes "asst")
        × (0 < sum_by (λ (f : Finished floats). one_if (is_for floats name f)) fs)

    none_counted :
        (test : Finished floats → Bool) (fs : List (Finished floats))
        → ((f : Finished floats) → is_for floats name f ≡ false → test f ≡ false)
        → All (λ (f : Finished floats). is_for floats name f ≡ false) fs
        → sum_by (λ (f : Finished floats). one_if (test f)) fs ≡ 0
    none_counted test [] k h = refl
    none_counted test (f ∷ fs) k h = ground (arith, k f h.0, none_counted test fs k h.1)

    none_for :
        (P : Finished floats → Type 0) (fs : List (Finished floats))
        → ((f : Finished floats) → is_for floats name f ≡ false → P f)
        → All (λ (f : Finished floats). is_for floats name f ≡ false) fs
        → All P fs
    none_for P [] k h = tt
    none_for P (f ∷ fs) k h = (k f h.0, none_for P fs k h.1)

    new-Summary :
        (fs : List (Finished floats)) (s : Submission)
        → All (λ (f : Finished floats). is_for floats name f ≡ false) fs
        → Summary floats name fs (new_stats floats s)
    unfolding new_stats
    new-Summary fs s h = record {
      total = sym (none_counted (is_for floats name) fs (λ f k. k) h);
      complete = sym (none_counted (counts floats name) fs (λ f k. ground arith) h);
      at_most = none_for _ fs (λ f k c. cc) h;
      reached = inl refl;
      lowest =
          λ p. (none_for _ fs (λ f k c. cc) h, inl (refl, none_for _ fs (λ f k. ground arith) h));
    }

    entry_type :
        (f : Finished floats) (t : TargetStats floats)
        → (update_entry floats f t).target_type ≡ t.target_type
    unfolding update_entry count_submission score_result perf_result
    entry_type f t = ground arith

    -- One submission for the target is enough, wherever it stands.
    for-last :
        (fs : List (Finished floats)) (f : Finished floats)
        → is_for floats name f ≡ true
        → 0 < sum_by (λ (g : Finished floats). one_if (is_for floats name g)) (fs ++ f ∷ [])
    for-last fs f h =
        ground (
          arith,
          sum_by-append (λ (g : Finished floats). one_if (is_for floats name g)) fs (f ∷ []),
        )

    for-before :
        (fs : List (Finished floats)) (f : Finished floats)
        → 0 < sum_by (λ (g : Finished floats). one_if (is_for floats name g)) fs
        → 0 < sum_by (λ (g : Finished floats). one_if (is_for floats name g)) (fs ++ f ∷ [])
    for-before fs f h =
        omega (
          arith,
          sum_by-append (λ (g : Finished floats). one_if (is_for floats name g)) fs (f ∷ []),
        )

    step-Says :
        (fs : List (Finished floats)) (f : Finished floats) (o : Option (TargetStats floats))
        → length fs + 1 < 2 ^ 64
        → (is_for floats name f ≡ true → f.submission.target_type ≡ codes "asst")
        → Says fs o
        → Says (fs ++ f ∷ []) (
            if is_for floats name f
            then some (update_entry floats f (entry_or_new floats f.submission o))
            else o)
    unfolding new_stats
    step-Says fs f none short asst h = elim (Bool-cases (is_for floats name f)) [
      | inl here ↦ rw here (
        added-Summary floats name fs f _ (new-Summary fs f.submission h) short (asst here) here,
        entry_type f _ ∙ asst here,
        for-last fs f here,
      )
      | inr other ↦ rw other (All-append _ fs (f ∷ []) h (other, tt))
    ]
    step-Says fs f (some t) short asst h = elim (Bool-cases (is_for floats name f)) [
      | inl here ↦ rw here (
        added-Summary floats name fs f t h.0 short h.1 here,
        entry_type f t ∙ h.1,
        for-last fs f here,
      )
      | inr other ↦
          rw other (other-Summary floats name fs f t h.0 short other, h.1, for-before fs f h.2)
    ]

    found :
        (f : Finished floats) (student : Student floats)
        → get_stat floats name (update_stats floats f student).stats ≡ (
            if is_for floats name f
            then some (
                update_entry floats f
                  (entry_or_new floats f.submission (get_stat floats name student.stats)))
            else get_stat floats name student.stats)
    found f student =
        get_stat-update_stats floats f student name ∙ elim (Bool-cases (is_for floats name f)) [
          | inl here ↦ rw here (rw (eq_of_str_eq f.submission.target_name name here) refl)
          | inr other ↦ rw other refl
        ]

    all-Says :
        (fs before : List (Finished floats)) (student : Student floats)
        → length before + length fs < 2 ^ 64
        → All
            (λ (f : Finished floats).
              is_for floats name f ≡ true → f.submission.target_type ≡ codes "asst")
            fs
        → Says before (get_stat floats name student.stats)
        → Says (before ++ fs) (get_stat floats name (update_all floats fs student).stats)
    unfolding update_all
    all-Says [] before student short asst h = rw append-nil h
    all-Says (f ∷ fs) before student short asst h =
        let now : Says (before ++ f ∷ [])
            (get_stat floats name (update_stats floats f student).stats) =
          subst (Says (before ++ f ∷ [])) (sym (found f student))
            (step-Says before f _ (omega arith) asst.0 h) in
        subst
          (λ (all : List (Finished floats)).
            Says all
              (get_stat floats name (update_all floats fs (update_stats floats f student)).stats))
          (append_assoc before (f ∷ []) fs)
          (all-Says fs (before ++ f ∷ []) (update_stats floats f student)
            (omega (arith, length-append before (f ∷ []))) asst.1 now)

  counted_once :
      (f : Finished floats) (student : Student floats)
      → student.total_submissions + 1 < 2 ^ 64
      → (update_stats floats f student).total_submissions
        ≡ student.total_submissions + one_if (is_original f)
  unfolding update_stats add64
  counted_once f student h = ground arith

  submitted :
      (fs : List (Finished floats)) (student : Student floats)
      → student.total_submissions + length fs < 2 ^ 64
      → (update_all floats fs student).total_submissions
        ≡ student.total_submissions + sum_by (λ (f : Finished floats). one_if (is_original f)) fs
  unfolding update_all
  submitted [] student h = omega arith
  submitted (f ∷ fs) student h =
      let once = counted_once f student (omega arith) in
      let most : one_if (is_original f) ≤ 1 = ground arith in
      submitted fs (update_stats floats f student) (omega (arith, once, most)) ∙ omega (arith, once)

  -- The statistics of a new student after fewer than 2 ^ 64 submissions, of which those for the target
  -- `name` have assignment scoring: there is no entry for the target exactly if no submission was for it;
  -- the entry says how many submissions were for it, how many of them count, the highest score of these
  -- (0 if there is none), and the lowest if none of them is 0; and the student's own count is that of
  -- the submissions that are not parts of a split one.
  pub update_all-Summary :
      (name : Str) (fs : List (Finished floats)) (student : Student floats)
      → student.stats ≡ []
      → student.total_submissions ≡ 0
      → length fs < 2 ^ 64
      → All
          (λ (f : Finished floats).
            is_for floats name f ≡ true → f.submission.target_type ≡ codes "asst")
          fs
      → Says name fs (get_stat floats name (update_all floats fs student).stats)
        × ((update_all floats fs student).total_submissions
            ≡ sum_by (λ (f : Finished floats). one_if (is_original f)) fs)
  unfolding get_stat
  update_all-Summary name fs student empty zero short asst = (
    all-Says name fs [] student (omega arith) asst (
        subst (λ (ts : List (TargetStats floats)). Says name [] (get_stat floats name ts))
          (sym empty) tt),
    submitted fs student (omega arith) ∙ omega arith,
  )
