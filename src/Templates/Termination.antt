-- ===== src/Templates/Termination.antt =====
-- The expansion of a command's output ends.
use test.Base.{
  ℕ, zero, suc, ◌≡◌, ◌≤◌, ◌<◌, refl, ap, ◌∙◌, inl, inr, Bool, true, false, List, [], ◌∷◌, Option,
  none, some, Str, codes, str_eq, str_eq_refl, has, Dict, lookup, length, str_eq_iff, Bool-cases,
  if◌then◌else◌, arith,
}
use test.Grading.{ExpectedOutputLine}
use test.Templates.{
  TemplOutputLine, CommandTemplate, Expanded, ok, error, cycle, join, join_later, own_line,
  expand_line, external_line, expand_lines, expand_output,
}

-- How many known commands are not processed.
remaining : Dict CommandTemplate → List Str → ℕ
remaining [] processed = 0
remaining ((k, t) ∷ d) processed =
    let rest = remaining d processed in if has k processed then rest else suc rest

remaining-le :
    (d : Dict CommandTemplate) (processed : List Str) (id : Str)
    → remaining d (id ∷ processed) ≤ remaining d processed
unfolding remaining has
remaining-le [] processed id = omega arith
remaining-le ((k, t) ∷ d) processed id = ground (arith, remaining-le d processed id)

remaining-lt :
    (d : Dict CommandTemplate) (processed : List Str) (id : Str) (t : CommandTemplate)
    → has id processed ≡ false
    → lookup id d ≡ some t
    → remaining d (id ∷ processed) < remaining d processed
unfolding remaining has lookup
remaining-lt [] processed id t n l = cc l
remaining-lt ((k, u) ∷ d) processed id t n l = elim (Bool-cases (str_eq k id)) [
  | inl e ↦
      let same : k ≡ id = (str_eq_iff k id).0 e in
      let new : has k processed ≡ false = ap (λ x. has x processed) same ∙ n in
      let eq : str_eq id k ≡ true = ap (str_eq id) same ∙ str_eq_refl id in
      rw (eq, new) (omega (arith, remaining-le d processed id))
  | inr e ↦
      let later = remaining-lt d processed id t n (rw (e, lookup) at l) in
      ground (arith, later, str_eq_iff k id, str_eq_iff id k)
]

module _ (render : Str → List Str → Option Str) (commands : Dict CommandTemplate)
    (args : List Str) where
  abbrev Result : Option (Expanded (List ExpectedOutputLine)) → Type 0
  Result r = (x : Expanded (List ExpectedOutputLine)) × (r ≡ some x)

  join_later-Result :
      (a b : Option (Expanded (List ExpectedOutputLine)))
      → Result a
      → Result b
      → Result (join_later render commands args a b)
  join_later-Result none b x y = cc x.1
  join_later-Result (some (error e)) b x y = (error e, refl)
  join_later-Result (some (ok xs)) none x y = cc y.1
  join_later-Result (some (ok xs)) (some r) x y = (join (ok xs) r, refl)

  if-Result :
      (b : Bool) {p q : Option (Expanded (List ExpectedOutputLine))}
      → Result p
      → Result q
      → Result (if b then p else q)
  if-Result true x y = x
  if-Result false x y = y

  external-Result :
      (expand : Str → CommandTemplate → Option (Expanded (List ExpectedOutputLine))) (text : Str)
      (r : Option CommandTemplate)
      → ((t : CommandTemplate) → r ≡ some t → Result (expand text t))
      → Result (external_line render commands args expand text r)
  unfolding external_line
  external-Result expand text none h = (ok [], refl)
  external-Result expand text (some t) h = h t refl

  lines-Result :
      (expand : Str → CommandTemplate → Option (Expanded (List ExpectedOutputLine))) (id : Str)
      (ls : List TemplOutputLine)
      → ((text : Str) (t : CommandTemplate)
          → lookup text commands ≡ some t
          → Result (expand text t))
      → Result (expand_lines render commands args expand id ls)
  unfolding expand_lines
  lines-Result expand id [] h = (ok [], refl)
  lines-Result expand id (l ∷ ls) h =
      join_later-Result _ _
        (if-Result (str_eq l.external (codes "true"))
          (external-Result expand l.text (lookup l.text commands) (h l.text))
          (own_line render id l (expand_line render l.text args), refl))
        (lines-Result expand id ls h)

  enough :
      (fuel : ℕ) (processed : List Str) (id : Str) (t known : CommandTemplate)
      → lookup id commands ≡ some known
      → remaining commands processed < fuel
      → Result (expand_output render commands args fuel processed id t)
  unfolding expand_output
  enough zero processed id t known l lt = ground arith
  enough (suc fuel) processed id t known l lt = elim (Bool-cases (has id processed)) [
    | inl h ↦ rw h (error cycle, refl)
    | inr h ↦ rw h (
        lines-Result (expand_output render commands args fuel (id ∷ processed)) id t.output
          (λ text t' l'.
            enough fuel (id ∷ processed) text t' t' l'
              (omega (arith, lt, remaining-lt commands processed id known h l))))
  ]

  remaining-all : (d : Dict CommandTemplate) → remaining d [] ≡ length d
  unfolding remaining has
  remaining-all [] = refl
  remaining-all ((k, t) ∷ d) = ap suc (remaining-all d)

  -- The expansion of the output of a known command ends, with lines or with an error, whatever cycles
  -- the templates have: it calls itself no deeper than there are commands.
  pub expand_output-total :
      (id : Str) (t known : CommandTemplate)
      → lookup id commands ≡ some known
      → (x : Expanded (List ExpectedOutputLine)) × (expand_output render commands args
            (suc (length commands))
            []
            id
            t
          ≡ some x)
  expand_output-total id t known l =
      enough (suc (length commands)) [] id t known l (omega (arith, remaining-all commands))
