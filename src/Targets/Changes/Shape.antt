-- ===== src/Targets/Changes/Shape.antt =====
-- A change is allowed exactly between targets of the same shape.
use test.Base.{
  ℕ, suc, ◌≤◌, ◌≡◌, refl, sym, ap, ◌∙◌, inl, inr, true, List, [], ◌∷◌, Option, none, some, Str,
  str_eq, str_eq_iff, has, length, if◌then◌else◌, arith, Bool-cases,
}
use test.Graph.Nodes.{Distinct}
use test.Graph.Cycles.{length-le_of_distinct}
use test.Targets.{Target, TargetTest}

abbrev pub ids : List TargetTest → List Str
ids [] = []
ids (t ∷ ts) = t.id ∷ ids ts

-- The scoring of the test with an id: its points, its method and its points for memory leaks.
abbrev pub Scoring : Type 0
Scoring = ℕ × Str × ℕ

abbrev pub scoring_of : TargetTest → Scoring
scoring_of t = (t.points, t.scoring, t.mem_leak_points)

abbrev pub scoring : Str → List TargetTest → Option Scoring
scoring id [] = none
scoring id (t ∷ ts) = if str_eq t.id id then some (scoring_of t) else scoring id ts

-- The parts of a target that only a new version can change.
pub record SameShape (old t : Target) : Type 0 where
  pub version : old.version ≡ t.version
  pub name : old.name ≡ t.name
  pub kind : old.kind ≡ t.kind
  pub points : old.points ≡ t.points
  pub is_meta : old.is_meta ≡ t.is_meta
  pub tests : (id : Str) → scoring id old.tests ≡ scoring id t.tests
  pub sub_names : (name : Str) → has name old.sub_names ≡ has name t.sub_names

-- Two lists of the same length without repetition, one in the other, have the same names.
pub same_names :
    (xs ys : List Str)
    → Distinct xs
    → length ys ≤ length xs
    → ((x : Str) → has x xs ≡ true → has x ys ≡ true)
    → (y : Str) → has y ys ≡ true
    → has y xs ≡ true
unfolding has
same_names xs ys d l h y hy = elim (Bool-cases (has y xs)) [
  | inl e ↦ e
  | inr e ↦
      let most =
        length-le_of_distinct (y ∷ xs) ys (e, d) (λ x k. ground (arith, h x, str_eq_iff y x)) in
      absurd (omega (arith, most))
]

pub same_length :
    (xs ys : List Str)
    → Distinct xs
    → Distinct ys
    → ((x : Str) → has x xs ≡ has x ys)
    → length xs ≡ length ys
same_length xs ys d e h = omega (
  arith,
  length-le_of_distinct xs ys d (λ x k. sym (h x) ∙ k),
  length-le_of_distinct ys xs e (λ x k. h x ∙ k),
)

pub length-ids : (ts : List TargetTest) → length (ids ts) ≡ length ts
length-ids [] = refl
length-ids (t ∷ ts) = ap suc (length-ids ts)
