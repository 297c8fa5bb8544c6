-- ===== src/Manager/Counting.antt =====
-- How many jobs are in which phase, when one of them changes.
use test.Base.{ℕ, zero, suc, ◌+◌, ◌≡◌, refl, ap, List, [], ◌∷◌, some, get_elem?, sum_by, arith}
use test.Manager.{Phase, fresh, waits, woken, runs, over, set_at, all_fresh}
use mathlib.Core.Option.{some-injective}

abbrev pub one_waits : Phase → ℕ
one_waits waits = 1
one_waits _ = 0

abbrev pub one_woken : Phase → ℕ
one_woken woken = 1
one_woken _ = 0

abbrev pub one_runs : Phase → ℕ
one_runs runs = 1
one_runs _ = 0

abbrev pub one_over : Phase → ℕ
one_over over = 1
one_over _ = 0

pub set_at-sum :
    (f : Phase → ℕ) (x : Phase) (jobs : List Phase) (n : ℕ) (y : Phase)
    → get_elem? jobs n ≡ some x
    → sum_by f (set_at jobs n y) + f x ≡ sum_by f jobs + f y
unfolding set_at
set_at-sum f x [] n y h = cc h
set_at-sum f x (z ∷ zs) zero y h =
    let e : f z ≡ f x = ap f (some-injective z x h) in omega (arith, e)
set_at-sum f x (z ∷ zs) (suc n) y h = omega (arith, set_at-sum f x zs n y h)

-- All four counts before and after.
pub record Moved (x y : Phase) (jobs jobs' : List Phase) : Type 0 where
  pub waiting : sum_by one_waits jobs' + one_waits x ≡ sum_by one_waits jobs + one_waits y
  pub woken : sum_by one_woken jobs' + one_woken x ≡ sum_by one_woken jobs + one_woken y
  pub running : sum_by one_runs jobs' + one_runs x ≡ sum_by one_runs jobs + one_runs y
  pub finished : sum_by one_over jobs' + one_over x ≡ sum_by one_over jobs + one_over y

pub set_at-Moved :
    (jobs : List Phase) (n : ℕ) (x y : Phase)
    → get_elem? jobs n ≡ some x
    → Moved x y jobs (set_at jobs n y)
set_at-Moved jobs n x y h = record {
  waiting = set_at-sum one_waits x jobs n y h;
  woken = set_at-sum one_woken x jobs n y h;
  running = set_at-sum one_runs x jobs n y h;
  finished = set_at-sum one_over x jobs n y h;
}

pub all_fresh-sum : (f : Phase → ℕ) (n : ℕ) → f fresh ≡ 0 → sum_by f (all_fresh n) ≡ 0
unfolding all_fresh
all_fresh-sum f zero h = refl
all_fresh-sum f (suc n) h = omega (arith, h, all_fresh-sum f n h)
