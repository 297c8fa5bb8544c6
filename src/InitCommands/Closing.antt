-- ===== src/InitCommands/Closing.antt =====
-- The commands of a test end with the one that shuts sys161 down.
use test.Base.{
  ℕ, zero, suc, ◌≡◌, refl, sym, ap, subst, ◌∙◌, codes, eq_of_str_eq, inl, inr, List, [], ◌∷◌,
  Option, none, some, Str, str_eq, is_empty, Bool-cases,
}
use test.InitCommands.{
  CommandConf, ConfPointer, NewCommand, Init, ok, error, kernel_conf, kernel_pointer, trim, conf_eq,
  started, exit_line, prompt_of, new_command, enter, command_step, put, with_conf, with_line,
  expand, expand_commands,
}

-- The last command is "q", which shuts sys161 down from the menu of the kernel. It has no prompt to
-- wait for, and every other one has.
pub data Closed : List NewCommand → Type 0 where
  last : {c : NewCommand} → c.line ≡ codes "q" → c.prompt ≡ none → Closed (c ∷ [])
  more :
      {c : NewCommand} {cs : List NewCommand} (p : Str)
      → c.prompt ≡ some p
      → Closed cs
      → Closed (c ∷ cs)

-- The kernel's configuration lies at the bottom of the stack.
abbrev Based : List ConfPointer → Type 0
Based [] = Unit
Based (p ∷ []) = p.conf ≡ kernel_conf
Based (p ∷ q ∷ ps) = Based (q ∷ ps)

Based-pop : (p : ConfPointer) (ps : List ConfPointer) → Based (p ∷ ps) → Based ps
Based-pop p [] b = tt
Based-pop p (q ∷ ps) b = b

-- An empty stack was left by "q".
abbrev LeftBy : NewCommand → List ConfPointer → Type 0
LeftBy c [] = c.line ≡ codes "q"
LeftBy c (p ∷ ps) = Unit

-- What is left to do with this stack.
abbrev ClosedFrom : List ConfPointer → List NewCommand → Type 0
ClosedFrom [] cs = cs ≡ []
ClosedFrom (p ∷ ps) cs = Closed cs

abbrev value {ℓ} : {A : Type ℓ} → A → Init A → A
value d (ok a) = a
value d (error e) = d

ok-injective {ℓ} : {A : Type ℓ} (a b : A) → ok a ≡ ok b → a ≡ b
ok-injective a b e = ap (value a) e

module _ (confs : List CommandConf) where
  put-Closed :
      (c : NewCommand) (stack : List ConfPointer) (r : Init (List NewCommand))
      (cs : List NewCommand)
      → c.prompt ≡ prompt_of confs stack
      → LeftBy c stack
      → ((ds : List NewCommand) → r ≡ ok ds → ClosedFrom stack ds)
      → put confs c r ≡ ok cs
      → Closed cs
  put-Closed c stack (error e) cs p q later h = cc h
  put-Closed c [] (ok ds) cs p q later h =
      subst Closed (ok-injective _ _ h)
        (subst (λ x. Closed (c ∷ x)) (sym (later ds refl)) (last q p))
  put-Closed c (q ∷ qs) (ok ds) cs p l later h =
      subst Closed (ok-injective _ _ h) (more q.conf.prompt p (later ds refl))

  enter-prompt :
      (current : ConfPointer) (stack : List ConfPointer) (line : Str) (s : Option CommandConf)
      → let r = enter confs current stack line s in r.0.prompt ≡ prompt_of confs r.1
  unfolding enter new_command
  enter-prompt current stack line none = refl
  enter-prompt current stack line (some c) = refl

  step-prompt :
      (current : ConfPointer) (stack : List ConfPointer) (line : Str)
      → let r = command_step confs current stack line in r.0.prompt ≡ prompt_of confs r.1
  unfolding command_step new_command
  step-prompt current stack line = elim (Bool-cases (str_eq line current.conf.end)) [
    | inl e ↦ rw e refl
    | inr e ↦ rw e (enter-prompt current stack line (started confs current.conf line))
  ]

  -- What is left of a step's stack has the kernel at the bottom, and is empty only after "q".
  pop-LeftBy :
      (current : ConfPointer) (stack : List ConfPointer) (line : Str)
      → Based (current ∷ stack)
      → line ≡ current.conf.end
      → LeftBy (new_command confs current.conf line stack) stack
  unfolding new_command
  pop-LeftBy current [] line b e = e ∙ ap (λ (c : CommandConf). c.end) b
  pop-LeftBy current (q ∷ qs) line b e = tt

  enter-Based :
      (current : ConfPointer) (stack : List ConfPointer) (line : Str) (s : Option CommandConf)
      → Based (current ∷ stack)
      → let r = enter confs current stack line s in LeftBy r.0 r.1 × Based r.1
  unfolding enter
  enter-Based current stack line none b = (tt, b)
  enter-Based current stack line (some c) b = (tt, b)

  step-Based :
      (current : ConfPointer) (stack : List ConfPointer) (line : Str)
      → Based (current ∷ stack)
      → let r = command_step confs current stack line in LeftBy r.0 r.1 × Based r.1
  unfolding command_step
  step-Based current stack line b = elim (Bool-cases (str_eq line current.conf.end)) [
    | inl e ↦ rw e (
      pop-LeftBy current stack line b (eq_of_str_eq line current.conf.end e),
      Based-pop current stack b,
    )
    | inr e ↦ rw e (enter-Based current stack line (started confs current.conf line) b)
  ]

  conf-Closed :
      (rest : List ConfPointer → List Str → Init (List NewCommand)) (current : ConfPointer)
      (stack : List ConfPointer) (line first : Str) (lines : List Str) (wanted : Option ConfPointer)
      (cs : List NewCommand)
      → ((st : List ConfPointer) (ls : List Str) (ds : List NewCommand)
          → Based st
          → rest st ls ≡ ok ds
          → ClosedFrom st ds)
      → Based (current ∷ stack)
      → with_conf confs rest current stack line first lines wanted ≡ ok cs
      → Closed cs
  unfolding with_conf
  conf-Closed rest current stack line first lines none cs later b h = cc h
  conf-Closed rest current stack line first lines (some w) cs later b h =
      elim (Bool-cases (conf_eq current.conf w.conf)) [
        | inl e ↦
            let r = command_step confs current stack line in
            put-Closed r.0 r.1 (rest r.1 lines) cs (step-prompt current stack line)
              (step-Based current stack line b).0
              (λ ds. later r.1 lines ds (step-Based current stack line b).1) (rw e at h)
        | inr e ↦ later (current ∷ stack) _ cs b (rw e at h)
      ]

  line-Closed :
      (rest : List ConfPointer → List Str → Init (List NewCommand)) (current : ConfPointer)
      (stack : List ConfPointer) (first : Str) (lines : List Str) (cs : List NewCommand)
      → ((st : List ConfPointer) (ls : List Str) (ds : List NewCommand)
          → Based st
          → rest st ls ≡ ok ds
          → ClosedFrom st ds)
      → Based (current ∷ stack)
      → with_line confs rest current stack first lines ≡ ok cs
      → Closed cs
  unfolding with_line
  line-Closed rest current stack first lines cs later b h =
      elim (Bool-cases (is_empty (trim first))) [
        | inl e ↦ cc (rw e at h)
        | inr e ↦ conf-Closed rest current stack _ first lines _ cs later b (rw e at h)
      ]

  expand-Closed :
      (n : ℕ) (stack : List ConfPointer) (lines : List Str) (cs : List NewCommand)
      → Based stack
      → expand confs n stack lines ≡ ok cs
      → ClosedFrom stack cs
  unfolding expand
  expand-Closed zero stack lines cs b h = cc h
  expand-Closed (suc n) [] [] cs b h = sym (ok-injective _ _ h)
  expand-Closed (suc n) [] (l ∷ ls) cs b h = cc h
  expand-Closed (suc n) (current ∷ stack) [] cs b h =
      expand-Closed n (current ∷ stack) (exit_line confs current.conf ∷ []) cs b h
  expand-Closed (suc n) (current ∷ stack) (l ∷ ls) cs b h =
      line-Closed (expand confs n) current stack l ls cs (expand-Closed n) b h

  boot-Closed :
      (r : Init (List NewCommand)) (boot : NewCommand) (p : Str) (cs : List NewCommand)
      → boot.prompt ≡ some p
      → ((ds : List NewCommand) → r ≡ ok ds → Closed ds)
      → put confs boot r ≡ ok cs
      → Closed cs
  boot-Closed (error e) boot p cs b later h = cc h
  boot-Closed (ok ds) boot p cs b later h =
      subst Closed (ok-injective _ _ h) (more p b (later ds refl))

  -- What the loop returns is closed.
  pub expand_commands-Closed :
      (lines : List Str) (cs : List NewCommand) → expand_commands confs lines ≡ ok cs → Closed cs
  unfolding expand_commands
  expand_commands-Closed lines cs h =
      boot-Closed (expand confs 1024 (kernel_pointer ∷ []) lines) _ _ cs refl
        (λ ds. expand-Closed 1024 (kernel_pointer ∷ []) lines ds refl) h
