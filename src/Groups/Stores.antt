-- ===== src/Groups/Stores.antt =====
-- The stores of tests: one entry for each id, and what joining dependencies does to them.
use test.Base.{
  ◌≡◌, refl, ap, ◌∙◌, inl, inr, Bool, true, false, Option, none, some, not, ◌&&◌, ◌||◌, List, [],
  ◌∷◌, Str, str_eq, str_eq_iff, eq_of_str_eq, has, has-append, Dict, lookup, insert, if◌then◌else◌,
  arith, Bool-cases,
}
use mathlib.Core.Option
use test.Graph.Nodes.{Distinct}
use test.Groups.{Test, GroupError, Loaded, read, failed, load}
use test.Groups.Edges.{deps_of, depends}
use test.Groups.Expand.{ids_of, mark, set_dependency, join_deps, Grouping}

pub lookup-set_dependency :
    (k j : Str) (tests : Dict Test)
    → lookup j (set_dependency k tests)
      ≡ (if str_eq k j then Option.map mark (lookup j tests) else lookup j tests)
unfolding lookup set_dependency mark
lookup-set_dependency k j [] = ground arith
lookup-set_dependency k j ((i, t) ∷ tests) =
    ground (arith, str_eq_iff k j, str_eq_iff i k, str_eq_iff i j, lookup-set_dependency k j tests)

pub has-join_deps :
    (ids : List Str) (s : Grouping) (v : Str)
    → has v ((join_deps ids s).1) ≡ (has v (s.1) || has v ids)
unfolding join_deps has
has-join_deps [] s v = ground arith
has-join_deps (id ∷ ids) (tests, group) v = elim (Bool-cases (has id group)) [
  | inl e ↦ rw (e, join_deps) (has-join_deps ids _ v ∙ ground (arith, str_eq_iff id v))
  | inr e ↦ rw (e, join_deps) (has-join_deps ids _ v ∙ ground (arith, has-append v group (id ∷ [])))
]

pub lookup-join_deps :
    (ids : List Str) (s : Grouping) (v : Str)
    → lookup v ((join_deps ids s).0) ≡ (
        if has v ids && not (has v (s.1)) then Option.map mark (lookup v (s.0)) else lookup v (s.0))
unfolding join_deps has
lookup-join_deps [] s v = ground arith
lookup-join_deps (id ∷ ids) (tests, group) v = elim (Bool-cases (has id group)) [
  | inl e ↦ rw (e, join_deps) (lookup-join_deps ids _ v ∙ ground (arith, str_eq_iff id v))
  | inr e ↦
      rw (e, join_deps)
        (lookup-join_deps ids _ v
          ∙ ground (
            arith,
            has-append v group (id ∷ []),
            lookup-set_dependency id v tests,
            str_eq_iff id v,
          ))
]

ids-set_dependency :
    (id : Str) (tests : Dict Test) → ids_of (set_dependency id tests) ≡ ids_of tests
unfolding set_dependency ids_of
ids-set_dependency id [] = refl
ids-set_dependency id ((j, t) ∷ tests) = ground (arith, ids-set_dependency id tests)

pub ids-join_deps : (ids : List Str) (s : Grouping) → ids_of ((join_deps ids s).0) ≡ ids_of (s.0)
unfolding join_deps
ids-join_deps [] s = refl
ids-join_deps (id ∷ ids) (tests, group) = elim (Bool-cases (has id group)) [
  | inl e ↦ rw (e, join_deps) (ids-join_deps ids _)
  | inr e ↦ rw (e, join_deps) (ids-join_deps ids _ ∙ ids-set_dependency id tests)
]

pub deps_if :
    (b : Bool) (o : Option Test) → deps_of (if b then Option.map mark o else o) ≡ deps_of o
unfolding mark
deps_if true none = refl
deps_if true (some t) = refl
deps_if false o = refl

-- Marking a test leaves its dependencies as they are.
pub depends-join_deps :
    (ids : List Str) (s : Grouping) (u v : Str)
    → depends ((join_deps ids s).0) u v ≡ depends (s.0) u v
depends-join_deps ids s u v =
    ap (λ o. has v (deps_of o)) (lookup-join_deps ids s u) ∙ ap (has v) (deps_if _ (lookup u (s.0)))

pub has-ids-insert :
    (j k : Str) (t : Test) (tests : Dict Test)
    → has k (ids_of (insert j t tests)) ≡ (str_eq j k || has k (ids_of tests))
unfolding ids_of insert has
has-ids-insert j k t [] = refl
has-ids-insert j k t ((i, s) ∷ tests) =
    ground (arith, has-ids-insert j k t tests, str_eq_iff i j, str_eq_iff i k, str_eq_iff j k)

pub Distinct-insert :
    (j : Str) (t : Test) (tests : Dict Test)
    → Distinct (ids_of tests)
    → Distinct (ids_of (insert j t tests))
unfolding ids_of insert has
Distinct-insert j t [] d = (refl, tt)
Distinct-insert j t ((i, s) ∷ tests) d = elim (Bool-cases (str_eq i j)) [
  | inl e ↦ rw e (rw (← eq_of_str_eq i j e) d.0, d.1)
  | inr e ↦ rw e (
    ground (arith, has-ids-insert j i t tests, str_eq_iff i j, str_eq_iff j i, d.0),
    Distinct-insert j t tests d.1,
  )
]

-- The store of tests has one entry for each id.
pub Distinct-load :
    (ls : List Loaded) (tests : Dict Test) (errs : List GroupError)
    → Distinct (ids_of tests)
    → Distinct (ids_of ((load ls tests errs).0))
unfolding load
Distinct-load [] tests errs d = d
Distinct-load (read t ∷ ls) tests errs d =
    Distinct-load ls _ errs (Distinct-insert t.dependency_id t tests d)
Distinct-load (failed ∷ ls) tests errs d = Distinct-load ls tests _ d
