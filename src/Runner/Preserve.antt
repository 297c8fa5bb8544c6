-- ===== src/Runner/Preserve.antt =====
-- Each step of the runner keeps the phase of every test.
use test.Base.{
  ◌≡◌, ◌≢◌, inl, inr, refl, Bool, true, false, List, [], ◌∷◌, ◌++◌, Option, none, some, Str,
  str_eq_iff, str_eq_refl, has, has-del, del, Dict, lookup, Bool-cases, lookup-snoc_some,
  lookup-snoc_agree, arith, if◌then◌else◌,
}
use test.Runner.{TestResult, Waiter, waits, aborting, gone, correct, is_correct, receive}
use test.Runner.Invariant.{Cleared, Failed, Waits, Over, At}

is_correct-ne : (r : TestResult) → is_correct r ≡ false → r ≢ correct
unfolding is_correct
is_correct-ne r h e = ground arith

is_correct-eq : (r : TestResult) → is_correct r ≡ true → r ≡ correct
unfolding is_correct
is_correct-eq r h = ground arith

module _ {deps left : List Str} {reports rest : Dict TestResult} (k : Str) (r : TestResult)
    (w : Waits deps reports ((k, r) ∷ rest) left) where
  -- A report on a dependency that is not left is ignored.
  ignore-Waits : has k left ≡ false → Waits deps reports rest left
  unfolding lookup
  ignore-Waits old = record {
    among = w.among;
    cleared = w.cleared;
    in_sync = λ d m. ground (arith, w.in_sync d m, str_eq_iff k d);
  }

  -- A dependency that is left and was met is struck off.
  strike-Waits : has k left ≡ true → r ≡ correct → Waits deps reports rest (del k left)
  unfolding lookup
  strike-Waits new met = record {
    among = λ d m. w.among d (ground (arith, has-del d k left));
    cleared = λ d m gone_d.
        ground
          (arith, has-del d k left, w.cleared d m, w.in_sync k new, str_eq_iff k d, str_eq_refl k);
    in_sync =
        λ d m. ground (arith, has-del d k left, w.in_sync d (ground (arith, has-del d k left)));
  }

  fail-Failed : has k left ≡ true → r ≢ correct → Failed deps reports
  unfolding lookup
  fail-Failed new bad = (k, r, w.among k new, ground (arith, w.in_sync k new, str_eq_refl k), bad)

  pub receive-At : At deps reports rest (receive left k r) false true none
  unfolding receive
  receive-At = elim (Bool-cases (has k left)) [
    | inl new ↦ elim (Bool-cases (is_correct r)) [
      | inl met ↦ rw (new, met, receive) (strike-Waits new (is_correct-eq r met), refl, refl, refl)
      | inr bad ↦ rw (new, bad, receive) (fail-Failed new (is_correct-ne r bad), refl, refl, refl)
    ]
    | inr old ↦ rw (old, receive) (ignore-Waits old, refl, refl, refl)
  ]

-- Reports are only added.
module _ (k : Str) (r : TestResult) where
  abbrev pub more : Dict TestResult → Dict TestResult
  more c = c ++ (k, r) ∷ []

  pub Cleared-more :
      (deps : List Str) (c : Dict TestResult) → Cleared deps c → Cleared deps (more c)
  Cleared-more deps c h d m = lookup-snoc_some k r d c correct (h d m)

  pub Failed-more : (deps : List Str) (c : Dict TestResult) → Failed deps c → Failed deps (more c)
  Failed-more deps c (d, x, m, e, n) = (d, x, m, lookup-snoc_some k r d c x e, n)

  Waits-more :
      (deps left : List Str) (c chan : Dict TestResult)
      → Waits deps c chan left
      → Waits deps (more c) (more chan) left
  Waits-more deps left c chan w = record {
    among = w.among;
    cleared = λ d m l. lookup-snoc_some k r d c correct (w.cleared d m l);
    in_sync = λ d m. lookup-snoc_agree k r d chan c (w.in_sync d m);
  }

  Over-more :
      (deps : List Str) (c : Dict TestResult) (job : Bool) (o : Option TestResult)
      → Over deps c job o
      → Over deps (more c) job o
  Over-more deps c true o (e, h) = (e, Cleared-more deps c h)
  Over-more deps c false none h = h
  Over-more deps c false (some x) (inl (e, f)) = inl (e, Failed-more deps c f)
  Over-more deps c false (some x) (inr (e, f)) = inr (e, Cleared-more deps c f)

  -- A report on another test: a test that waits has it on its channel.
  pub At-more :
      (deps : List Str) (c chan : Dict TestResult) (w : Waiter) (job waiting : Bool)
      (o : Option TestResult)
      → At deps c chan w job waiting o
      → At deps (more c) (if waiting then more chan else chan) w job waiting o
  At-more deps c chan (waits left) job waiting o (h, j, q, e) =
      rw q (Waits-more deps left c chan h, j, refl, e)
  At-more deps c chan aborting job waiting o (h, j, q, e) = (Failed-more deps c h, j, q, e)
  At-more deps c chan gone job waiting o (q, h) = (q, Over-more deps c job o h)
