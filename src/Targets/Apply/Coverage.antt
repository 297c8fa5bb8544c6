-- ===== src/Targets/Apply/Coverage.antt =====
-- Which commands of a test a target must instantiate.
use test.Base.{
  ℕ, ◌≡◌, subst, inl, inr, true, not, List, [], ◌∷◌, Str, str_eq, str_eq_iff, ◌==◌, All, Bool-cases,
  arith, ◌&&◌,
}
use test.Grading.{Command}
use test.TestRun.{scoring_partial}
use test.Targets.{TargetCommand, TargetTest}
use test.Targets.Apply.{
  Instance, Scored, done, instances, apply_commands, verify, apply_to, covered, all_done, forget,
}
use test.Targets.Apply.Filling.{then_apply-done, done-injective}

-- Every instance of this id is done.
abbrev pub DoneAt : List Instance → Str → Type 0
DoneAt is id = All (λ (i : Instance). i.id ≡ id → i.done ≡ true) is

all_done-DoneAt : (id : Str) (is : List Instance) → all_done id is ≡ true → DoneAt is id
unfolding all_done
all_done-DoneAt id [] h = tt
all_done-DoneAt id (i ∷ is) h =
    ((λ e. ground (arith, (str_eq_iff i.id id).1 e)), all_done-DoneAt id is (ground arith))

-- What is done without the instances of `id` is done with them, when these are done too.
DoneAt-forget :
    (id other : Str) (is : List Instance)
    → DoneAt is id
    → DoneAt (forget id is) other
    → DoneAt is other
unfolding forget
DoneAt-forget id other [] d h = tt
DoneAt-forget id other (i ∷ is) d h = elim (Bool-cases (str_eq i.id id)) [
  | inl e ↦ ((λ p. d.0 ((str_eq_iff i.id id).0 e)), DoneAt-forget id other is d.1 (rw e at h))
  | inr e ↦
      let k : DoneAt (i ∷ forget id is) other = rw e at h in
      (k.0, DoneAt-forget id other is d.1 k.1)
]

All-map :
    {P Q : TargetCommand → Type 0} (f : (tc : TargetCommand) → P tc → Q tc)
    (tcs : List TargetCommand)
    → All P tcs
    → All Q tcs
All-map f [] h = tt
All-map f (tc ∷ tcs) h = (f tc h.0, All-map f tcs h.1)

covered-DoneAt :
    (tcs : List TargetCommand) (is : List Instance)
    → covered tcs is ≡ true
    → All (λ (tc : TargetCommand). DoneAt is tc.id) tcs
unfolding covered
covered-DoneAt [] is h = tt
covered-DoneAt (tc ∷ tcs) is h =
    let d = all_done-DoneAt tc.id is (ground arith) in
    (
      d,
      All-map (λ other. DoneAt-forget tc.id other.id is d) tcs
          (covered-DoneAt tcs (forget tc.id is) (ground arith)),
    )

verify-covered :
    (tt' : TargetTest) (is : List Instance) (a : ℕ) (s : Scored)
    → verify tt' (is, a) ≡ done s
    → covered tt'.commands s.commands ≡ true
unfolding verify
verify-covered tt' is a s h =
    elim (Bool-cases (str_eq tt'.scoring scoring_partial && not (a == tt'.points))) [
      | inl e ↦ cc (rw e at h)
      | inr e ↦ elim (Bool-cases (covered tt'.commands is)) [
        | inr g ↦ cc (rw (e, g) at h)
        | inl g ↦
            let q = done-injective _ _ (rw (e, g) at h) in
            subst (λ (x : Scored). covered tt'.commands x.commands ≡ true) q g
      ]
    ]

-- A target that is applied to a test without an error has instantiated every command of the test whose
-- id it names.
pub apply_to-DoneAt :
    (tt' : TargetTest) (cs : List Command) (s : Scored)
    → apply_to tt' cs ≡ done s
    → All (λ (tc : TargetCommand). DoneAt s.commands tc.id) tt'.commands
unfolding apply_to
apply_to-DoneAt tt' cs s h =
    let (is, e, g) = then_apply-done (instances cs) _ s h in
    let (r, e2, g2) =
      then_apply-done (apply_commands tt'.scoring tt'.commands is 0) (verify tt') s g in
    covered-DoneAt tt'.commands s.commands (verify-covered tt' r.0 r.1 s g2)
