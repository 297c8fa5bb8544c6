-- ===== src/Students.antt =====
-- submission.go: the statistics that a student's record keeps of each target.
pub mod Sorting
pub mod Summary
pub mod History
mod Samples
use test.Base.{
  add64, ℕ, ◌+◌, Bool, true, false, ◌&&◌, ◌||◌, List, [], ◌∷◌, ◌++◌, Option, none, some, Str, codes,
  str_eq, ltb, ◌==◌, if◌then◌else◌,
}
use test.Submissions.{Submission, valid_result}

-- Go's float64.
pub record Floats : Type 1 where
  pub Float : Type 0
  pub zero : Float
  pub from_uint : ℕ → Float
  pub lt : Float → Float → Bool
  pub eq : Float → Float → Bool
  pub add : Float → Float → Float
  pub mul : Float → Float → Float
  pub div : Float → Float → Float

-- `a < b` on strings.
unfoldable pub str_lt : Str → Str → Bool
str_lt [] [] = false
str_lt [] (b ∷ t) = true
str_lt (a ∷ s) [] = false
str_lt (a ∷ s) (b ∷ t) = ltb a b || (a == b && str_lt s t)

module _ (floats : Floats) where
  open floats use {Float, zero, from_uint, lt, eq, add, mul, div}

  pub record TargetStats : Type 0 where
    pub target_name : Str
    pub target_version : ℕ
    pub target_type : Str
    pub max_score : ℕ
    pub total_submissions : ℕ
    pub total_complete : ℕ
    pub high_score : ℕ
    pub low_score : ℕ
    pub avg_score : Float
    pub best_perf : Float
    pub worst_perf : Float
    pub avg_perf : Float
    pub best_submission : Str

  pub record Student : Type 0 where
    pub total_submissions : ℕ
    pub stats : List TargetStats

  -- A submission with the fields that only the statistics read.
  pub record Finished : Type 0 where
    pub submission : Submission
    pub orig_id : Str
    pub performance : Float

  -- `Submission.TargetStats`
  unfoldable pub new_stats : Submission → TargetStats
  new_stats s = record {
    target_name = s.target_name;
    target_version = s.target_version;
    target_type = s.target_type;
    max_score = s.points_available;
    total_submissions = 0;
    total_complete = 0;
    high_score = 0;
    low_score = 0;
    avg_score = zero;
    best_perf = zero;
    worst_perf = zero;
    avg_perf = zero;
    best_submission = [];
  }

  unfoldable pub get_stat : Str → List TargetStats → Option TargetStats
  get_stat name [] = none
  get_stat name (t ∷ ts) = if str_eq t.target_name name then some t else get_stat name ts

  -- `sort.Sort(StatsByName(...))`, where no name stands twice.
  unfoldable pub insert_stat : TargetStats → List TargetStats → List TargetStats
  unfolding str_lt
  insert_stat t [] = t ∷ []
  insert_stat t (u ∷ us) =
      if str_lt u.target_name t.target_name then u ∷ insert_stat t us else t ∷ u ∷ us

  unfoldable pub sort_stats : List TargetStats → List TargetStats
  unfolding insert_stat
  sort_stats [] = []
  sort_stats (t ∷ ts) = insert_stat t (sort_stats ts)

  -- A change through the pointer to the entry for a target.
  unfoldable pub update_stat :
      Str → (TargetStats → TargetStats) → List TargetStats → List TargetStats
  update_stat name f [] = []
  update_stat name f (t ∷ ts) =
      if str_eq t.target_name name then f t ∷ ts else t ∷ update_stat name f ts

  -- The number of completed submissions before and after one more, as the average takes them.
  abbrev pub one_more : ℕ → ℕ
  one_more n = if add64 n 1 == 0 then 1 else add64 n 1

  abbrev pub total_before : ℕ → Float → Float
  total_before n average = if add64 n 1 == 0 then zero else mul (from_uint n) average

  unfoldable pub score_result : Finished → TargetStats → TargetStats
  unfolding add64
  score_result f t =
      let score = f.submission.score in
      record t {
        high_score = if ltb t.high_score score then score else t.high_score;
        best_submission = if ltb t.high_score score then f.submission.id else t.best_submission;
        low_score = if t.low_score == 0 || ltb score t.low_score then score else t.low_score;
        total_complete = one_more t.total_complete;
        avg_score =
            div (add (total_before t.total_complete t.avg_score) (from_uint score))
              (from_uint (one_more t.total_complete));
      }

  unfoldable pub perf_result : Finished → TargetStats → TargetStats
  unfolding add64
  perf_result f t =
      let better = lt f.performance t.best_perf || eq t.best_perf zero in
      record t {
        best_perf = if better then f.performance else t.best_perf;
        best_submission = if better then f.submission.id else t.best_submission;
        worst_perf = if lt t.worst_perf f.performance then f.performance else t.worst_perf;
        total_complete = one_more t.total_complete;
        avg_perf =
            div (add (total_before t.total_complete t.avg_perf) f.performance)
              (from_uint (one_more t.total_complete));
      }

  -- A new version of the target brings its maximum score with it.
  unfoldable pub count_submission : Submission → TargetStats → TargetStats
  unfolding add64
  count_submission s t =
      let newer = ltb t.target_version s.target_version in
      record t {
        total_submissions = add64 t.total_submissions 1;
        max_score = if newer then s.points_available else t.max_score;
        target_version = if newer then s.target_version else t.target_version;
      }

  unfoldable pub update_entry : Finished → TargetStats → TargetStats
  unfolding count_submission valid_result score_result perf_result
  update_entry f t =
      let u = count_submission f.submission t in
      if valid_result f.submission
      then (if str_eq u.target_type (codes "asst")
          then score_result f u
          else if str_eq u.target_type (codes "perf")
          then perf_result f u
          else u)
      else u

  abbrev pub with_entry : Submission → List TargetStats → Option TargetStats → List TargetStats
  with_entry s ts none = sort_stats (ts ++ new_stats s ∷ [])
  with_entry s ts (some t) = ts

  unfoldable pub update_stats : Finished → Student → Student
  unfolding get_stat sort_stats new_stats update_stat update_entry
  update_stats f student =
      let s = f.submission in
      record {
        total_submissions =
            if str_eq s.id f.orig_id
            then add64 student.total_submissions 1
            else student.total_submissions;
        stats =
            update_stat s.target_name (update_entry f)
              (with_entry s student.stats (get_stat s.target_name student.stats));
      }

  -- The submissions of a student, one after the other.
  unfoldable pub update_all : List Finished → Student → Student
  unfolding update_stats
  update_all [] student = student
  update_all (f ∷ fs) student = update_all fs (update_stats f student)
