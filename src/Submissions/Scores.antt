-- ===== src/Submissions/Scores.antt =====
-- The scores of a submission and of its parts agree.
use test.Base.{
  add64, ℕ, ◌+◌, ◌%◌, ◌^◌, ◌≡◌, refl, sym, ap, ◌∙◌, inl, inr, true, false, List, [], ◌∷◌, Option,
  none, some, Str, str_eq, Dict, All, sum_by, Bool-cases, arith, if◌then◌else◌,
}
use mathlib.Core.Option.{some-injective}
use test.Targets.{Target}
use test.Submissions.{
  Submission, running, aborted, GroupTest, JobResult, Scoreboard, is_running, is_abort, abort,
  update_score, abort_all, update_parts, take_result, take_results, clone_with, clone_and_update,
  clone_all, split, first_id, add_part,
}

abbrev one_for : Str → Submission → ℕ
one_for name s = if str_eq name s.target_name then 1 else 0

-- How many parts are for this target.
abbrev pub count_for : Str → List Submission → ℕ
count_for name parts = sum_by (one_for name) parts

abbrev score_of : Submission → ℕ
score_of s = s.score

update-none :
    (r : JobResult) (parts : List Submission)
    → count_for r.target_name parts ≡ 0
    → sum_by score_of (update_parts r parts) ≡ sum_by score_of parts
unfolding update_parts
update-none r [] h = refl
update-none r (s ∷ ss) h = elim (Bool-cases (str_eq r.target_name s.target_name)) [
  | inl e ↦ let k : 1 + count_for r.target_name ss ≡ 0 = rw (e, one_for) at h in omega (arith, k)
  | inr e ↦
      let k : 0 + count_for r.target_name ss ≡ 0 = rw (e, one_for) at h in
      rw e (omega (arith, update-none r ss (omega (arith, k))))
]

update-one :
    (r : JobResult) (parts : List Submission)
    → count_for r.target_name parts ≡ 1
    → sum_by score_of (update_parts r parts) % 2 ^ 64
      ≡ (sum_by score_of parts + r.points_earned) % 2 ^ 64
unfolding update_parts update_score add64
update-one r [] h = ground arith
update-one r (s ∷ ss) h = elim (Bool-cases (str_eq r.target_name s.target_name)) [
  | inl e ↦
      let k : 1 + count_for r.target_name ss ≡ 1 = rw (e, one_for) at h in
      rw e (omega (arith, update-none r ss (omega (arith, k))))
  | inr e ↦
      let k : 0 + count_for r.target_name ss ≡ 1 = rw (e, one_for) at h in
      rw e (omega (arith, update-one r ss (omega (arith, k))))
]

update-count :
    (r : JobResult) (name : Str) (parts : List Submission)
    → count_for name (update_parts r parts) ≡ count_for name parts
unfolding update_parts update_score
update-count r name [] = refl
update-count r name (s ∷ ss) = elim (Bool-cases (str_eq r.target_name s.target_name)) [
  | inl e ↦ rw e (omega (arith, update-count r name ss))
  | inr e ↦ rw e (omega (arith, update-count r name ss))
]

abort-sum : (parts : List Submission) → sum_by score_of (abort_all parts) ≡ 0
unfolding abort_all abort
abort-sum [] = refl
abort-sum (s ∷ ss) = omega (arith, abort-sum ss)

abort-count :
    (name : Str) (parts : List Submission) → count_for name (abort_all parts) ≡ count_for name parts
unfolding abort_all abort
abort-count name [] = refl
abort-count name (s ∷ ss) = omega (arith, abort-count name ss)

-- The scores agree modulo a machine word, and each part is where it was.
record Agree (b : Scoreboard) : Type 0 where
  scores : b.0.score % 2 ^ 64 ≡ sum_by score_of b.1 % 2 ^ 64

take-Agree :
    (r : JobResult) (b : Scoreboard)
    → count_for r.target_name b.1 ≡ 1
    → Agree b
    → Agree (take_result r b)
unfolding take_result abort update_score add64
take-Agree r (s, parts) one v = elim (Bool-cases (is_running s.status)) [
  | inr e ↦ rw e v
  | inl e ↦ elim (Bool-cases (is_abort r.result)) [
    | inl a ↦ rw (e, a) record { scores = omega (arith, abort-sum parts) }
    | inr a ↦ rw (e, a) record { scores = omega (arith, update-one r parts one, v.scores) }
  ]
]

take-count :
    (r : JobResult) (name : Str) (b : Scoreboard)
    → count_for name (take_result r b).1 ≡ count_for name b.1
unfolding take_result
take-count r name (s, parts) = elim (Bool-cases (is_running s.status)) [
  | inr e ↦ rw e refl
  | inl e ↦ elim (Bool-cases (is_abort r.result)) [
    | inl a ↦ rw (e, a) (abort-count name parts)
    | inr a ↦ rw (e, a) (update-count r name parts)
  ]
]

OneEach-take :
    (r : JobResult) (b : Scoreboard) (rs : List JobResult)
    → All (λ (x : JobResult). count_for x.target_name b.1 ≡ 1) rs
    → All (λ (x : JobResult). count_for x.target_name (take_result r b).1 ≡ 1) rs
OneEach-take r b [] h = tt
OneEach-take r b (x ∷ xs) h = (take-count r x.target_name b ∙ h.0, OneEach-take r b xs h.1)

results-Agree :
    (rs : List JobResult) (b : Scoreboard)
    → All (λ (x : JobResult). count_for x.target_name b.1 ≡ 1) rs
    → Agree b
    → Agree (take_results rs b)
unfolding take_results
results-Agree [] b h v = v
results-Agree (r ∷ rs) b h v =
    results-Agree rs (take_result r b) (OneEach-take r b rs h.1) (take-Agree r b h.0 v)

module _ (tests : List GroupTest) (estimated : Dict ℕ) where
  clone-score :
      (s : Submission) (t : Target) (id : Str) (build : Option Str) (x : Submission)
      → clone_with tests estimated s t id build ≡ some x
      → x.score ≡ 0
  unfolding clone_with
  clone-score s t id none x h = cc h
  clone-score s t id (some build) x h = ap score_of (sym (some-injective _ _ h))

  add_part-score :
      (a : Option Submission) (b : Option (List Submission)) (parts : List Submission)
      → ((x : Submission) → a ≡ some x → x.score ≡ 0)
      → ((xs : List Submission) → b ≡ some xs → sum_by score_of xs ≡ 0)
      → add_part a b ≡ some parts
      → sum_by score_of parts ≡ 0
  add_part-score none b parts f g h = cc h
  add_part-score (some x) none parts f g h = cc h
  add_part-score (some x) (some xs) parts f g h =
      ap (λ (ys : List Submission). sum_by score_of ys) (sym (some-injective _ _ h))
      ∙ omega (arith, f x refl, g xs refl)

  clones-score :
      (s : Submission) (ts : List (Target × Str)) (parts : List Submission)
      → clone_all tests estimated s ts ≡ some parts
      → sum_by score_of parts ≡ 0
  unfolding clone_all clone_and_update
  clones-score s [] parts h =
      ap (λ (ys : List Submission). sum_by score_of ys) (sym (some-injective _ _ h))
  clones-score s ((t, id) ∷ ts) parts h =
      add_part-score _ _ parts (λ x. clone-score s t id (first_id s.test_ids) x) (clones-score s ts)
        h

  split-score :
      (s : Submission) (orig : Target × Str) (previous : List (Target × Str))
      (parts : List Submission)
      → split tests estimated s orig previous ≡ some parts
      → sum_by score_of parts ≡ 0
  unfolding split
  split-score s orig previous parts h = elim (Bool-cases s.is_meta) [
    | inr e ↦
        ap (λ (ys : List Submission). sum_by score_of ys) (sym (some-injective _ _ (rw e at h)))
    | inl e ↦ elim (Bool-cases (orig.0).is_meta) [
      | inl g ↦ clones-score s previous parts (rw (e, g) at h)
      | inr g ↦ clones-score s (orig ∷ previous) parts (rw (e, g) at h)
    ]
  ]

  -- If each test belongs to the target of one part, then after the tests' results, aborts included,
  -- the scores of the parts of a submission that had no score add up to its score, modulo 2 ^ 64.
  pub split-results-score :
      (s : Submission) (orig : Target × Str) (previous : List (Target × Str))
      (parts : List Submission) (rs : List JobResult)
      → s.score ≡ 0
      → split tests estimated s orig previous ≡ some parts
      → All (λ (r : JobResult). count_for r.target_name parts ≡ 1) rs
      → let b = take_results rs (s, parts) in
        b.0.score % 2 ^ 64 ≡ sum_by (λ (p : Submission). p.score) b.1 % 2 ^ 64
  split-results-score s orig previous parts rs z h one =
      (results-Agree rs (s, parts) one
        (record { scores = omega (arith, z, split-score s orig previous parts h) })).scores

-- No score, and the submission is aborted.
record Void (b : Scoreboard) : Type 0 where
  status : b.0.status ≡ aborted
  scores : b.0.score ≡ 0
  parts : sum_by score_of b.1 ≡ 0

Void-stays : (rs : List JobResult) (b : Scoreboard) → Void b → Void (take_results rs b)
unfolding take_results take_result is_running
Void-stays [] b v = v
Void-stays (r ∷ rs) (s, parts) v =
    let e : is_running s.status ≡ false = ap is_running v.status in
    Void-stays rs (take_result r (s, parts)) (rw e v)

abort-Void :
    (r : JobResult) (b : Scoreboard)
    → b.0.status ≡ running
    → is_abort r.result ≡ true
    → Void (take_result r b)
unfolding take_result is_running abort
abort-Void r (s, parts) e a =
    rw (e, is_running, a) record { status = refl; scores = refl; parts = abort-sum parts }

-- Once a test aborts while the submission runs, the submission is aborted for good, and neither it nor
-- any of its parts has a score, whatever the later tests earn.
pub abort-no-score :
    (r : JobResult) (rs : List JobResult) (b : Scoreboard)
    → b.0.status ≡ running
    → is_abort r.result ≡ true
    → let after = take_results (r ∷ rs) b in
      (after.0.status ≡ aborted)
      × (after.0.score ≡ 0)
      × (sum_by (λ (p : Submission). p.score) after.1 ≡ 0)
unfolding take_results
abort-no-score r rs b e a =
    let v = Void-stays rs (take_result r b) (abort-Void r b e a) in (v.status, v.scores, v.parts)
