-- ===== src/Templates/Meaning.antt =====
-- Which output lines a command template stands for.
use test.Base.{
  ℕ, zero, suc, ◌≡◌, refl, ap, subst, inl, inr, true, false, List, [], ◌∷◌, ◌++◌, Option, none,
  some, Str, codes, str_eq, has, Dict, lookup, Bool-cases,
}
use mathlib.Core.Option.{some-injective}
use test.Grading.{ExpectedOutputLine}
use test.Templates.{
  TemplOutputLine, CommandTemplate, Expanded, ok, error, split_lines, lines_of, join_later,
  own_line, expand_line, external_line, expand_lines, expand_output,
}
use test.Templates.Lines.{AreLines, AreExpected, split_lines-AreLines, expected_lines-AreExpected}

module _ (render : Str → List Str → Option Str) (commands : Dict CommandTemplate)
    (args : List Str) where
  -- The lines of the command `id` stand for the expected lines: an external line for all lines of
  -- the command that it names, or for none if there is no such command, and any other line for the
  -- lines of its rendered text that are not blank, with the key of `id` exactly if it is trusted.
  pub data StandsFor : Str → List TemplOutputLine → List ExpectedOutputLine → Type 0 where
    nothing : {id : Str} → StandsFor id [] []
    own :
        {id s : Str} {l : TemplOutputLine} {ls : List TemplOutputLine} {lines : List Str}
        {xs ys : List ExpectedOutputLine}
        → str_eq l.external (codes "true") ≡ false
        → render l.text args ≡ some s
        → AreLines s lines
        → AreExpected id l lines xs
        → StandsFor id ls ys
        → StandsFor id (l ∷ ls) (xs ++ ys)
    external :
        {id : Str} {l : TemplOutputLine} {ls : List TemplOutputLine} {t : CommandTemplate}
        {xs ys : List ExpectedOutputLine}
        → str_eq l.external (codes "true") ≡ true
        → lookup l.text commands ≡ some t
        → StandsFor l.text t.output xs
        → StandsFor id ls ys
        → StandsFor id (l ∷ ls) (xs ++ ys)
    unknown :
        {id : Str} {l : TemplOutputLine} {ls : List TemplOutputLine} {ys : List ExpectedOutputLine}
        → str_eq l.external (codes "true") ≡ true
        → lookup l.text commands ≡ none
        → StandsFor id ls ys
        → StandsFor id (l ∷ ls) ys

  abbrev value : Expanded (List ExpectedOutputLine) → List ExpectedOutputLine
  value (ok xs) = xs
  value (error e) = []

  out-lem :
      {x y : List ExpectedOutputLine}
      → ◌≡◌ {A = Option (Expanded (List ExpectedOutputLine))} (some (ok x)) (some (ok y))
      → x ≡ y
  out-lem e = ap value (some-injective _ _ e)

  join_later-ok :
      (a b : Option (Expanded (List ExpectedOutputLine))) (out : List ExpectedOutputLine)
      → join_later render commands args a b ≡ some (ok out)
      → (xs : List ExpectedOutputLine) × (ys : List ExpectedOutputLine) × (a ≡ some (ok xs))
        × (b ≡ some (ok ys))
        × (xs ++ ys ≡ out)
  join_later-ok none b out h = cc h
  join_later-ok (some (error e)) b out h = cc h
  join_later-ok (some (ok xs)) none out h = cc h
  join_later-ok (some (ok xs)) (some (error e)) out h = cc h
  join_later-ok (some (ok xs)) (some (ok ys)) out h = (xs, ys, refl, refl, out-lem h)

  -- One external line in front.
  external-StandsFor :
      (expand : Str → CommandTemplate → Option (Expanded (List ExpectedOutputLine))) (id : Str)
      (l : TemplOutputLine) (ls : List TemplOutputLine) (xs ys : List ExpectedOutputLine)
      (r : Option CommandTemplate)
      → ((text : Str) (t : CommandTemplate) (out : List ExpectedOutputLine)
          → expand text t ≡ some (ok out)
          → StandsFor text t.output out)
      → str_eq l.external (codes "true") ≡ true
      → lookup l.text commands ≡ r
      → external_line render commands args expand l.text r ≡ some (ok xs)
      → StandsFor id ls ys
      → StandsFor id (l ∷ ls) (xs ++ ys)
  unfolding external_line
  external-StandsFor expand id l ls xs ys none h e k g v =
      subst (λ zs. StandsFor id (l ∷ ls) (zs ++ ys)) (out-lem g) (unknown e k v)
  external-StandsFor expand id l ls xs ys (some t) h e k g v = external e k (h l.text t xs g) v

  own-StandsFor :
      (id : Str) (l : TemplOutputLine) (ls : List TemplOutputLine) (xs ys : List ExpectedOutputLine)
      (r : Option Str)
      → str_eq l.external (codes "true") ≡ false
      → render l.text args ≡ r
      → own_line render id l (lines_of render r) ≡ ok xs
      → StandsFor id ls ys
      → StandsFor id (l ∷ ls) (xs ++ ys)
  unfolding own_line lines_of
  own-StandsFor id l ls xs ys none b e h v = cc h
  own-StandsFor id l ls xs ys (some s) b e h v =
      own b e (split_lines-AreLines s)
        (subst (AreExpected id l (split_lines s)) (ap value h)
          (expected_lines-AreExpected render id l (split_lines s)))
        v

  lines-StandsFor :
      (expand : Str → CommandTemplate → Option (Expanded (List ExpectedOutputLine))) (id : Str)
      (ls : List TemplOutputLine) (out : List ExpectedOutputLine)
      → ((text : Str) (t : CommandTemplate) (out : List ExpectedOutputLine)
          → expand text t ≡ some (ok out)
          → StandsFor text t.output out)
      → expand_lines render commands args expand id ls ≡ some (ok out)
      → StandsFor id ls out
  unfolding expand_lines expand_line
  lines-StandsFor expand id [] out h e = subst (StandsFor id []) (out-lem e) nothing
  lines-StandsFor expand id (l ∷ ls) out h e =
      let (xs, ys, p, q, s) = join_later-ok _ _ out e in
      let later = lines-StandsFor expand id ls ys h q in
      subst (StandsFor id (l ∷ ls)) s (elim (Bool-cases (str_eq l.external (codes "true"))) [
        | inl b ↦
            external-StandsFor expand id l ls xs ys (lookup l.text commands) h b refl (rw b at p)
              later
        | inr b ↦ own-StandsFor id l ls xs ys _ b refl (some-injective _ _ (rw b at p)) later
      ])

  -- Where the expansion gives lines, they are the lines that the template stands for: an external line
  -- for all lines of the command that it names, or for none if there is no such command, and any other
  -- line for the lines of its rendered text that are not blank, in their order, with the key of the
  -- command exactly if the line is trusted.
  pub expand_output-StandsFor :
      (fuel : ℕ) (processed : List Str) (id : Str) (t : CommandTemplate)
      (out : List ExpectedOutputLine)
      → expand_output render commands args fuel processed id t ≡ some (ok out)
      → StandsFor id t.output out
  unfolding expand_output
  expand_output-StandsFor zero processed id t out h = cc h
  expand_output-StandsFor (suc fuel) processed id t out h = elim (Bool-cases (has id processed)) [
    | inl e ↦ cc (rw e at h)
    | inr e ↦
        lines-StandsFor (expand_output render commands args fuel (id ∷ processed)) id t.output out
          (expand_output-StandsFor fuel (id ∷ processed)) (rw e at h)
  ]
