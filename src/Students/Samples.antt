-- ===== src/Students/Samples.antt =====
-- Three submissions of a student, and what the statistics say of them.
use test.Base.{
  ◌≡◌, refl, ℕ, ◌+◌, ◌*◌, ◌/◌, false, List, [], ◌∷◌, Str, codes, str_eq, ltb, ◌==◌, arith, sum_by,
}
use test.Submissions.{Submission, completed, aborted}
use test.Students.{Floats, Student, TargetStats, Finished, get_stat, update_all}
use test.Students.Summary.{one_if}
use test.Students.History.{Says, is_original, update_all-Summary}

-- Numbers without a fraction in place of float64.
abbrev whole : Floats
whole = record {
  Float = ℕ;
  zero = 0;
  from_uint = λ n. n;
  lt = ltb;
  eq = ◌==◌;
  add = ◌+◌;
  mul = ◌*◌;
  div = ◌/◌;
}

abbrev submission : Str → ℕ → Submission
submission name score = record {
  id = codes "id";
  target_name = name;
  target_version = 1;
  target_type = codes "asst";
  is_meta = false;
  points_available = 50;
  status = completed;
  score = score;
  estimated_score = 0;
  test_ids = [];
  sub_ids = [];
}

abbrev finished : Submission → Finished whole
finished s = record { submission = s; orig_id = codes "id"; performance = 0 }

abbrev history : List (Finished whole)
history =
    finished (submission (codes "asst1") 30)
    ∷ finished (submission (codes "asst0") 5)
    ∷ finished (submission (codes "asst1") 20)
    ∷ finished (record (submission (codes "asst1") 0) { status = aborted })
    ∷ []

abbrev new_student : Student whole
new_student = record { total_submissions = 0; stats = [] }

abbrev shown : List (TargetStats whole) → List (Str × ℕ × ℕ × ℕ × ℕ × ℕ)
shown [] = []
shown (t ∷ ts) =
    (t.target_name, t.total_submissions, t.total_complete, t.high_score, t.low_score, t.avg_score)
    ∷ shown ts

shown_lem :
    shown (update_all whole history new_student).stats
    ≡ (codes "asst0", 1, 1, 5, 5, 5) ∷ (codes "asst1", 3, 2, 30, 20, 25) ∷ []
unfolding update_all str_eq
shown_lem = refl

update_all-Summary_example :
    Says whole
      (codes "asst1")
      history
      (get_stat whole (codes "asst1") (update_all whole history new_student).stats)
    × ((update_all whole history new_student).total_submissions
        ≡ sum_by (λ (f : Finished whole). one_if (is_original whole f)) history)
update_all-Summary_example =
    update_all-Summary whole (codes "asst1") history new_student refl refl (omega arith)
      (λ h. refl, (λ h. refl, (λ h. refl, (λ h. refl, tt))))
