-- ===== src/CommandLine/Words.antt =====
-- Splitting what was joined: arguments that are words come back.
use mathlib.Core.List.{append-nil, append_assoc}
use test.Base.{
  ℕ, not, ◌⊎◌, ◌≡◌, ◌≢◌, refl, ◌∙◌, ap, Bool, true, false, arith, List, [], ◌∷◌, ◌++◌, Str, All,
}
use test.CommandLine.{scan, last_arg, split_loop, split_args}
use test.CommandLine.Join.{join}

-- From a state of the scanner no byte of the text ends an argument, and the end is outside quotes.
abbrev pub Uncut : Bool → Bool → Str → Type 0
Uncut q e [] = (q ≡ false) × (e ≡ false)
Uncut q e (c ∷ cs) = ((scan q e c).2 ≡ false) × Uncut (scan q e c).0 (scan q e c).1 cs

-- Text inside quotes or outside of them, whose quotes are closed at its end: bytes other than a quote
-- and a backslash, spaces only inside quotes; a backslash with any byte behind it; and quotes.
pub data Text : Bool → Str → Type 0 where
  done : Text false []
  plain :
      {q : Bool} {c : ℕ} {s : Str}
      → c ≢ b'"'
      → c ≢ 92
      → (q ≡ true) ⊎ (c ≢ b' ')
      → Text q s
      → Text q (c ∷ s)
  escaped : {q : Bool} {s : Str} (c : ℕ) → Text q s → Text q (92 ∷ c ∷ s)
  quote : {q : Bool} {s : Str} → Text (not q) s → Text q (b'"' ∷ s)

-- A word is not empty, has spaces only inside quotes or behind a backslash, and closes its quotes.
abbrev pub IsWord : Str → Type 0
IsWord w = (w ≢ []) × Text false w

scan-plain :
    (q : Bool) (c : ℕ)
    → c ≢ b'"'
    → c ≢ 92
    → (q ≡ true) ⊎ (c ≢ b' ')
    → scan q false c ≡ (q, false, false)
unfolding scan
scan-plain q c a b s = ground arith

scan-escaped : (q : Bool) (c : ℕ) → scan q true c ≡ (q, false, false)
unfolding scan
scan-escaped q c = ground arith

-- The scanner reads a text to its end without a cut.
pub Text-Uncut : (q : Bool) (w : Str) → Text q w → Uncut q false w
unfolding scan
Text-Uncut q [] done = (refl, refl)
Text-Uncut q (c ∷ w) (plain a b n t) = rw (scan-plain q c a b n) (refl, Text-Uncut q w t)
Text-Uncut q (b ∷ d ∷ w) (escaped c t) = (refl, rw (scan-escaped q d) (refl, Text-Uncut q w t))
Text-Uncut q (c ∷ w) (quote t) = (refl, Text-Uncut (not q) w t)

split_loop-Uncut :
    (q e : Bool) (cur w rest : Str)
    → Uncut q e w
    → split_loop q e cur (w ++ rest) ≡ split_loop false false (cur ++ w) rest
unfolding split_loop
split_loop-Uncut q e cur [] rest (hq, he) = rw (hq, he, append-nil cur)
split_loop-Uncut q e cur (c ∷ w) rest (h, hs) = rw h (
    let ih = split_loop-Uncut (scan q e c).0 (scan q e c).1 (cur ++ c ∷ []) w rest hs in
    rw append_assoc at ih)

last_word : (w : Str) → w ≢ [] → last_arg w ≡ w ∷ []
unfolding last_arg
last_word [] h = absurd (h refl)
last_word (c ∷ w) h = refl

pub split_loop-join :
    (w : Str) (ws : List Str)
    → IsWord w
    → All IsWord ws
    → split_loop false false [] (join (w ∷ ws)) ≡ w ∷ ws
unfolding split_loop scan
split_loop-join w [] h hs =
    let e = split_loop-Uncut false false [] w [] (Text-Uncut false w h.1) in
    (rw append-nil at e) ∙ last_word w h.0
split_loop-join w (x ∷ ws) h hs =
    split_loop-Uncut false false [] w (32 ∷ join (x ∷ ws)) (Text-Uncut false w h.1)
    ∙ ap (λ (l : List Str). w ∷ l) (split_loop-join x ws hs.0 hs.1)

-- Splitting the arguments that were joined by single spaces gives them back, if each is a word: not
-- empty, with spaces only inside quotes or behind a backslash, and with its quotes closed.
pub split_args-join :
    (w : Str) (ws : List Str) → IsWord w → All IsWord ws → split_args (join (w ∷ ws)) ≡ w ∷ ws
unfolding split_args
split_args-join w ws h hs = split_loop-join w ws h hs
