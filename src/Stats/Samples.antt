-- ===== src/Stats/Samples.antt =====
-- A window of two entries that four messages pass through.
use test.Base.{
  ℕ, Bool, false, ltb, ◌+◌, ◌≡◌, ◌<◌, refl, true, List, [], ◌∷◌, Option, none, some, arith, ◌^◌,
}
use test.Stats.{Stat, Monitor, slide_all, empty_stat, empty_monitor}
use test.Stats.Counters.{
  nsec, kinsns, uinsns, udud, idle, irqs, exns, disk, con, emu, net, insns, modulus, width, Fits,
}
use test.Stats.Window.{Summed, slide_all-Summed}

-- With whole times.
later : ℕ → ℕ → Bool
later x y = ltb y x

program : Unit {0}
unfolding later slide_all empty_monitor empty_stat modulus width
program = tt

-- A second of which so many instructions are counted.
abbrev counted : ℕ → ℕ → Stat
counted t k = record empty_stat {
  initialized = true;
  start = t;
  end = t + 1;
  count = 1;
  kinsns = k;
  insns = k;
}

abbrev messages : List Stat
messages = counted 0 4294967295 ∷ counted 1 7 ∷ counted 2 4294967290 ∷ counted 3 11 ∷ []

abbrev window_of : Option Monitor → Option (ℕ × ℕ)
window_of none = none
window_of (some m) = some (m.window.count, m.window.kinsns)

-- 4294967290 + 11, with an overflow.
last_two : window_of (slide_all later 2 empty_monitor messages) ≡ some (2, 5)
unfolding program
last_two = refl

-- A window without entries panics.
no_window : slide_all later 0 empty_monitor messages ≡ none
unfolding program
no_window = refl

-- Messages that overlap panic.
overlap : slide_all later 2 empty_monitor (counted 1 7 ∷ counted 1 9 ∷ []) ≡ none
unfolding program
overlap = refl

later-same : (t : ℕ) → later t t ≡ false
unfolding program
later-same t = ground arith

counted-Fits : (t k : ℕ) → k < 2 ^ 32 → Fits (counted t k)
unfolding program
counted-Fits t k lt nsec = omega arith
counted-Fits t k lt kinsns = omega (arith, lt)
counted-Fits t k lt uinsns = omega arith
counted-Fits t k lt udud = omega arith
counted-Fits t k lt idle = omega arith
counted-Fits t k lt irqs = omega arith
counted-Fits t k lt exns = omega arith
counted-Fits t k lt disk = omega arith
counted-Fits t k lt con = omega arith
counted-Fits t k lt emu = omega arith
counted-Fits t k lt net = omega arith
counted-Fits t k lt insns = omega (arith, lt)

slide_all-Summed_example :
    (m : Monitor) × (slide_all later 2 empty_monitor messages ≡ some m) × Summed 2 m
unfolding program
slide_all-Summed_example =
    slide_all-Summed later later-same 2 (omega arith) (omega arith) messages
      (
        counted-Fits 0 4294967295 (omega arith),
        (
          counted-Fits 1 7 (omega arith),
          (counted-Fits 2 4294967290 (omega arith), (counted-Fits 3 11 (omega arith), tt)),
        ),
      )
      (refl, (refl, (refl, (tt, tt))))
