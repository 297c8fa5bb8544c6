-- ===== src/SecureLine/Trust.antt =====
-- Which lines of output are trusted.
use test.Base.{
  ◌≡◌, refl, sym, ap, ◌∙◌, ◌↔◌, inl, inr, true, false, List, [], ◌∷◌, ◌++◌, Option, none, some, Str,
  str_eq_iff, has, Bool-cases, arith,
}
use mathlib.Core.Option.{some-injective}
use test.Grading.{OutputLine, KeyMap}
use test.SecureLine.{
  Secure, clean, secure_parts, key_of, is_signature, check_parts, check_secure, check_clean,
  output_line_complete, complete_lines,
}

abbrev and_parts : Option Str → Option Secure
and_parts none = none
and_parts (some s) = secure_parts s

-- The parts that secprintf wrote, if it wrote the line.
abbrev pub parts_in : Str → Option Secure
parts_in line = and_parts (clean line)

module _ (mac : Str → Str → Str) (key_map : KeyMap) where
  -- The line is signed with the key of its id and with a salt that no earlier line had.
  pub record Signed (salts : List Str) (line : Str) : Type 0 where
    pub parts : Secure
    pub form : parts_in line ≡ some parts
    pub fresh : has parts.salt salts ≡ false
    pub signature : mac (key_of mac key_map parts.id ++ parts.salt) parts.text ≡ parts.hash

  -- What the call with these parts in the line does.
  abbrev Outcome : List Str → Option Secure → List Str × OutputLine → Type 0
  Outcome salts found r =
      (r.1.trusted ≡ true
        → (p : Secure) × (found ≡ some p)
          × (has p.salt salts ≡ false)
          × (is_signature mac key_map p ≡ true))
      × ((p : Secure)
          → found ≡ some p
          → has p.salt salts ≡ false
          → is_signature mac key_map p ≡ true
          → r.1.trusted ≡ true)
      × ((p : Secure) → found ≡ some p → has p.salt r.0 ≡ true)
      × ((k : Str) → has k salts ≡ true → has k r.0 ≡ true)

  parts-Outcome :
      (salts : List Str) (o : OutputLine) (p : Secure)
      → o.trusted ≡ false
      → Outcome salts (some p) (check_parts mac key_map salts o p)
  unfolding check_parts has
  parts-Outcome salts o p t = elim (Bool-cases (has p.salt salts)) [
    | inl h ↦ rw h (
      (λ e. cc e),
      (λ q e n s. cc (ap (λ (x : Secure). has x.salt salts) (some-injective p q e), h, n)),
      (λ q e. ap (λ (x : Secure). has x.salt salts) (sym (some-injective p q e)) ∙ h),
      (λ k e. e),
    )
    | inr h ↦ elim (Bool-cases (is_signature mac key_map p)) [
      | inl g ↦
          rw (h, g)
            (
              (λ e. (p, refl, h, g)),
              (λ q e n s. refl),
              (λ q e. ground (
                arith,
                (str_eq_iff p.salt q.salt).1 (ap (λ (x : Secure). x.salt) (some-injective p q e)),
              )),
              (λ k e. ground (arith, e)),
            )
      | inr g ↦
          rw (h, g)
            (
              (λ e. cc (e, t)),
              (λ q e n s. cc (ap (is_signature mac key_map) (some-injective p q e), g, s)),
              (λ q e. ground (
                arith,
                (str_eq_iff p.salt q.salt).1 (ap (λ (x : Secure). x.salt) (some-injective p q e)),
              )),
              (λ k e. ground (arith, e)),
            )
    ]
  ]

  nothing-Outcome :
      (salts : List Str) (o : OutputLine) → o.trusted ≡ false → Outcome salts none (salts, o)
  nothing-Outcome salts o t = ((λ e. cc (e, t)), (λ p e n s. cc e), (λ p e. cc e), (λ k e. e))

  secure-Outcome :
      (salts : List Str) (o : OutputLine) (found : Option Secure)
      → o.trusted ≡ false
      → Outcome salts found (check_secure mac key_map salts o found)
  unfolding check_secure
  secure-Outcome salts o none t = nothing-Outcome salts o t
  secure-Outcome salts o (some p) t = parts-Outcome salts o p t

  clean-Outcome :
      (salts : List Str) (o : OutputLine) (c : Option Str)
      → o.trusted ≡ false
      → Outcome salts (and_parts c) (check_clean mac key_map salts o c)
  unfolding check_clean
  clean-Outcome salts o none t = nothing-Outcome salts (record o { line = [] }) t
  clean-Outcome salts o (some s) t = secure-Outcome salts (record o { line = s }) (secure_parts s) t

  line-Outcome :
      (salts : List Str) (o : OutputLine)
      → o.trusted ≡ false
      → Outcome salts (parts_in o.line) (output_line_complete mac key_map salts o)
  unfolding output_line_complete
  line-Outcome salts o t = clean-Outcome salts o (clean o.line) t

  signature_iff :
      (p : Secure)
      → (is_signature mac key_map p ≡ true)
        ↔ (mac (key_of mac key_map p.id ++ p.salt) p.text ≡ p.hash)
  unfolding is_signature
  signature_iff p = str_eq_iff (mac (key_of mac key_map p.id ++ p.salt) p.text) p.hash

  -- A new line of output is trusted exactly when it has the form that secprintf writes, its hash is
  -- the one of its message under the key of its id and its salt, and no earlier line had this salt.
  pub output_line_complete-Signed :
      (salts : List Str) (o : OutputLine)
      → o.trusted ≡ false
      → ((output_line_complete mac key_map salts o).1.trusted ≡ true) ↔ Signed salts o.line
  output_line_complete-Signed salts o t =
      let (to, from, seen, kept) = line-Outcome salts o t in
      (
        (λ e.
            let (p, f, n, s) = to e in
            record { parts = p; form = f; fresh = n; signature = (signature_iff p).0 s }),
        (λ v. from v.parts v.form v.fresh ((signature_iff v.parts).1 v.signature)),
      )

  abbrev NotTrusted : List OutputLine → Type 0
  NotTrusted [] = Unit
  NotTrusted (o ∷ os) = (o.trusted ≡ false) × NotTrusted os

  lines-kept :
      (salts : List Str) (os : List OutputLine) (k : Str)
      → NotTrusted os
      → has k salts ≡ true
      → has k (complete_lines mac key_map salts os).0 ≡ true
  unfolding complete_lines
  lines-kept salts [] k t h = h
  lines-kept salts (o ∷ os) k t h =
      let (to, from, seen, kept) = line-Outcome salts o t.0 in
      lines-kept (output_line_complete mac key_map salts o).0 os k t.1 (kept k h)

  -- A replayed line is not trusted: after a line with some salt, and any lines in between, no line
  -- with that salt is trusted, whether the first one was trusted or not.
  pub replay_rejected :
      (salts : List Str) (o o' : OutputLine) (between : List OutputLine) (p p' : Secure)
      → (o.trusted ≡ false) × NotTrusted between × (o'.trusted ≡ false)
      → parts_in o.line ≡ some p
      → parts_in o'.line ≡ some p'
      → p'.salt ≡ p.salt
      → let s1 = (output_line_complete mac key_map salts o).0 in
        let s2 = (complete_lines mac key_map s1 between).0 in
        (output_line_complete mac key_map s2 o').1.trusted ≡ false
  replay_rejected salts o o' between p p' (t, tb, t') f f' same =
      let s1 = (output_line_complete mac key_map salts o).0 in
      let s2 = (complete_lines mac key_map s1 between).0 in
      let (to, from, seen, kept) = line-Outcome salts o t in
      let old : has p.salt s2 ≡ true = lines-kept s1 between p.salt tb (seen p f) in
      elim (Bool-cases ((output_line_complete mac key_map s2 o').1.trusted)) [
        | inr e ↦ e
        | inl e ↦
            let v = (output_line_complete-Signed s2 o' t').0 e in
            let q : p' ≡ v.parts = some-injective _ _ (sym f' ∙ v.form) in
            cc (ap (λ k. has k s2) (sym same ∙ ap (λ (x : Secure). x.salt) q), old, v.fresh)
      ]
