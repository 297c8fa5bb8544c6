-- ===== src/Intake/Locks.antt =====
-- Locking and unlocking students, and sums over the submissions when one changes its phase.
use test.Base.{
  ℕ, zero, suc, ◌+◌, ◌≤◌, ◌≡◌, refl, ap, Bool, true, false, not, ◌&&◌, ◌||◌, List, [], ◌∷◌, Option,
  none, some, Str, str_eq, str_eq_iff, has, add, del, has-add, has-del, get_elem?, sum_by, arith,
}
use mathlib.Core.Option.{some-injective}
use test.Intake.{
  Intake, Student, Phase, unlocked, over, Job, any_pending, lock_students, unlock_students,
  set_phase, run_locked, is_on_deck,
}

-- Whether a student takes part in a submission.
abbrev pub takes_part : Str → List Student → Bool
takes_part e [] = false
takes_part e (s ∷ ss) = str_eq s.email e || takes_part e ss

-- The phases in which a submission keeps its students locked.
abbrev pub holds : Phase → Bool
holds unlocked = false
holds over = false
holds _ = true

abbrev pub one_if : Bool → ℕ
one_if true = 1
one_if false = 0

-- 1 for a submission that keeps the student locked.
abbrev pub holder : Str → Job → ℕ
holder e j = one_if (holds j.phase && takes_part e j.students)

pub has-lock :
    (e : Str) (ss : List Student) (p : List Str)
    → has e (lock_students ss p) ≡ (takes_part e ss || has e p)
unfolding lock_students
has-lock e [] p = refl
has-lock e (s ∷ ss) p = ground (arith, has-lock e ss (add s.email p), has-add e s.email p)

pub has-unlock :
    (e : Str) (ss : List Student) (p : List Str)
    → has e (unlock_students ss p) ≡ (not (takes_part e ss) && has e p)
unfolding unlock_students
has-unlock e [] p = ground arith
has-unlock e (s ∷ ss) p = ground (arith, has-unlock e ss (del s.email p), has-del e s.email p)

pub free_student :
    (e : Str) (ss : List Student) (p : List Str)
    → any_pending ss p ≡ false
    → takes_part e ss ≡ true
    → has e p ≡ false
unfolding any_pending
free_student e [] p h t = cc
free_student e (s ∷ ss) p h t = ground (arith, free_student e ss p, str_eq_iff s.email e)

module _ (f : Job → ℕ) where
  pub sum-set_phase :
      (jobs : List Job) (n : ℕ) (j : Job) (p : Phase)
      → get_elem? jobs n ≡ some j
      → sum_by f (set_phase n p jobs) + f j ≡ sum_by f jobs + f (record j { phase = p })
  unfolding set_phase
  sum-set_phase [] n j p h = cc h
  sum-set_phase (k ∷ ks) zero j p h =
      let e : k ≡ j = some-injective k j h in
      omega (arith, ap f e, ap (λ (x : Job). f (record x { phase = p })) e)
  sum-set_phase (k ∷ ks) (suc n) j p h = omega (arith, sum-set_phase ks n j p h)

  pub sum-element :
      (jobs : List Job) (n : ℕ) (j : Job) → get_elem? jobs n ≡ some j → f j ≤ sum_by f jobs
  sum-element [] n j h = cc h
  sum-element (k ∷ ks) zero j h = omega (arith, ap f (some-injective k j h))
  sum-element (k ∷ ks) (suc n) j h = omega (arith, sum-element ks n j h)

pub no_holder_on_deck :
    (jobs : List Job)
    → run_locked jobs ≡ false
    → sum_by (λ (j : Job). one_if (is_on_deck j.phase)) jobs ≡ 0
unfolding run_locked
no_holder_on_deck [] h = refl
no_holder_on_deck (j ∷ js) h = ground (arith, no_holder_on_deck js)

pub pending_student :
    (e : Str) (ss : List Student) (p : List Str)
    → takes_part e ss ≡ true
    → has e p ≡ true
    → any_pending ss p ≡ true
unfolding any_pending
pending_student e [] p t h = cc
pending_student e (s ∷ ss) p t h = ground (arith, pending_student e ss p, str_eq_iff s.email e)

-- The submission that an event is about, taken apart.
module _ (s s' : Intake) (n : ℕ) {P : Type 0} where
  pub by_job :
      (act : Option Job → Option Intake)
      → act none ≡ none
      → ((ss : List Student) (p : Phase)
          → get_elem? s.jobs n ≡ some (record { students = ss; phase = p })
          → act (some (record { students = ss; phase = p })) ≡ some s'
          → P)
      → (o : Option Job) → get_elem? s.jobs n ≡ o
      → act o ≡ some s'
      → P
  by_job act z f none h e = cc z
  by_job act z f (some j) h e = f j.students j.phase h e
