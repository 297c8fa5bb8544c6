-- ===== src/Students/Sorting.antt =====
-- Which entry a student's statistics have for a target, after each change.
use test.Base.{
  ◌≡◌, refl, sym, ◌∙◌, inl, inr, true, false, List, [], ◌∷◌, ◌++◌, Option, none, some, Str, str_eq,
  str_eq_iff, eq_of_str_eq, if◌then◌else◌, arith, Bool-cases,
}
use mathlib.Core.Option
use test.Submissions.{Submission}
use test.Students.{
  Floats, str_lt, TargetStats, Student, Finished, new_stats, get_stat, insert_stat, sort_stats,
  update_stat, score_result, perf_result, count_submission, update_entry, with_entry, update_stats,
}

str_lt_irrefl : (s : Str) → str_lt s s ≡ false
unfolding str_lt
str_lt_irrefl [] = refl
str_lt_irrefl (a ∷ s) = ground (arith, str_lt_irrefl s)

module _ (floats : Floats) where
  get_stat-insert :
      (name : Str) (t : TargetStats floats) (ts : List (TargetStats floats))
      → get_stat floats name (insert_stat floats t ts)
        ≡ (if str_eq t.target_name name then some t else get_stat floats name ts)
  unfolding get_stat insert_stat
  get_stat-insert name t [] = refl
  get_stat-insert name t (u ∷ us) = elim (Bool-cases (str_lt u.target_name t.target_name)) [
    | inl h ↦ rw h (elim (Bool-cases (str_eq u.target_name name)) [
      | inl e ↦ elim (Bool-cases (str_eq t.target_name name)) [
        | inl k ↦
            absurd
              (clash u.target_name t.target_name h (eq_of_str_eq _ _ e ∙ sym (eq_of_str_eq _ _ k)))
        | inr k ↦ rw (e, k) refl
      ]
      | inr e ↦ rw e (get_stat-insert name t us)
    ])
    | inr h ↦ rw h refl
  ]
    where
      clash : (a b : Str) → str_lt a b ≡ true → a ≡ b → ⊥
      clash a b h e = cc (str_lt_irrefl b)

  get_stat-sort :
      (name : Str) (ts : List (TargetStats floats))
      → get_stat floats name (sort_stats floats ts) ≡ get_stat floats name ts
  unfolding sort_stats get_stat
  get_stat-sort name [] = refl
  get_stat-sort name (t ∷ ts) = get_stat-insert name t _ ∙ rw (get_stat-sort name ts) refl

  get_stat-snoc :
      (name : Str) (ts : List (TargetStats floats)) (t : TargetStats floats)
      → get_stat floats t.target_name ts ≡ none
      → get_stat floats name (ts ++ t ∷ [])
        ≡ (if str_eq t.target_name name then some t else get_stat floats name ts)
  unfolding get_stat
  get_stat-snoc name [] t h = refl
  get_stat-snoc name (u ∷ us) t h = ground (
    arith,
    get_stat-snoc name us t,
    str_eq_iff u.target_name name,
    str_eq_iff t.target_name name,
    str_eq_iff u.target_name t.target_name,
  )

  get_stat-update :
      (name other : Str) (f : TargetStats floats → TargetStats floats)
      → ((t : TargetStats floats) → (f t).target_name ≡ t.target_name)
      → (ts : List (TargetStats floats))
      → get_stat floats other (update_stat floats name f ts) ≡ (
          if str_eq name other
          then Option.map f (get_stat floats other ts)
          else get_stat floats other ts)
  unfolding get_stat update_stat
  get_stat-update name other f same [] = ground arith
  get_stat-update name other f same (t ∷ ts) = ground (
    arith,
    get_stat-update name other f same ts,
    same t,
    str_eq_iff t.target_name name,
    str_eq_iff t.target_name other,
    str_eq_iff name other,
  )

  update_entry_name :
      (f : Finished floats) (t : TargetStats floats)
      → (update_entry floats f t).target_name ≡ t.target_name
  unfolding update_entry count_submission score_result perf_result
  update_entry_name f t = ground arith

  -- The entry that an update starts from.
  abbrev pub entry_or_new : Submission → Option (TargetStats floats) → TargetStats floats
  entry_or_new s none = new_stats floats s
  entry_or_new s (some t) = t

  get_stat-with_entry :
      (name : Str) (s : Submission) (ts : List (TargetStats floats))
      (o : Option (TargetStats floats))
      → get_stat floats s.target_name ts ≡ o
      → get_stat floats name (with_entry floats s ts o)
        ≡ (if str_eq s.target_name name then some (entry_or_new s o) else get_stat floats name ts)
  unfolding new_stats
  get_stat-with_entry name s ts none h =
      get_stat-sort name _ ∙ get_stat-snoc name ts (new_stats floats s) h
  get_stat-with_entry name s ts (some t) h = ground (arith, str_eq_iff s.target_name name)

  -- An update changes the entry of the submission's target, or makes it, and no other.
  pub get_stat-update_stats :
      (f : Finished floats) (student : Student floats) (name : Str)
      → get_stat floats name (update_stats floats f student).stats ≡ (
          if str_eq f.submission.target_name name
          then some (
              update_entry floats f (
                entry_or_new f.submission (get_stat floats f.submission.target_name student.stats)))
          else get_stat floats name student.stats)
  unfolding update_stats
  get_stat-update_stats f student name =
      get_stat-update f.submission.target_name name (update_entry floats f) (update_entry_name f) _
      ∙ rw (get_stat-with_entry name f.submission student.stats _ refl) (ground arith)
