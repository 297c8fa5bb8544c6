-- ===== src/Stats/Adjacent.antt =====
-- Messages that are adjacent in time, and windows that they can enter and leave.
use test.Base.{
  ℕ, ◌≡◌, refl, ap, subst, inl, inr, Bool, true, false, Bool-cases, List, [], ◌∷◌, ◌++◌,
  if◌then◌else◌, some,
}
use test.Stats.{
  Stat, Monitor, add_stat, sub_stat, appended, without, append_stat, shift_stat, put_stat,
}

-- The monitor once it has taken a message, and once the oldest entry has left.
abbrev pub put : Monitor → Stat → Monitor
put m s = record { cache = m.cache ++ s ∷ []; window = appended m.window s }

abbrev pub shifted : Stat → Stat → List Stat → Monitor
shifted w head cache = record { cache = cache; window = without w head }

module _ (apart : ℕ → ℕ → Bool) where
  -- The first stat, if there is one, starts at this time or not much before it.
  abbrev pub StartsAt : ℕ → List Stat → Type 0
  StartsAt t [] = Unit
  StartsAt t (s ∷ ss) = apart t s.start ≡ false

  -- Each stat starts when the one before ends, or not much before that.
  abbrev pub Adjacent : List Stat → Type 0
  Adjacent [] = Unit
  Adjacent (s ∷ ss) = StartsAt s.end ss × Adjacent ss

  -- A monitor and the messages that are still to come.
  pub record Joined (m : Monitor) (ss : List Stat) : Type 0 where
    pub links : Adjacent (m.cache ++ ss)
    pub start : m.window.initialized ≡ true → StartsAt m.window.start (m.cache ++ ss)
    pub end : m.window.initialized ≡ true → StartsAt m.window.end ss

  Adjacent-later : (xs ys : List Stat) → Adjacent (xs ++ ys) → Adjacent ys
  Adjacent-later [] ys h = h
  Adjacent-later (x ∷ xs) ys h = Adjacent-later xs ys h.1

  snoc-append : (xs : List Stat) (s : Stat) (ys : List Stat) → xs ++ s ∷ ys ≡ (xs ++ s ∷ []) ++ ys
  snoc-append [] s ys = refl
  snoc-append (x ∷ xs) s ys = ap (λ (t : List Stat). x ∷ t) (snoc-append xs s ys)

  -- A message that the window can take does not make it panic.
  pub put_stat-some :
      (m : Monitor) (s : Stat) (ss : List Stat)
      → Joined m (s ∷ ss)
      → put_stat apart m s ≡ some (put m s)
  unfolding put_stat append_stat
  put_stat-some m s ss v = elim (Bool-cases m.window.initialized) [
    | inl h ↦ rw (h, v.end h) refl
    | inr h ↦ rw h refl
  ]

  pub put-Joined :
      ((t : ℕ) → apart t t ≡ false)
      → (m : Monitor) (s : Stat) (ss : List Stat) → (m.window.initialized ≡ false → m.cache ≡ [])
      → Joined m (s ∷ ss)
      → Joined (put m s) ss
  unfolding appended add_stat
  put-Joined same m s ss empty v = record {
    links = subst Adjacent (snoc-append m.cache s ss) v.links;
    start = λ e.
        subst (StartsAt (put m s).window.start) (snoc-append m.cache s ss)
          (starts m.window.initialized refl);
    end = λ e. (Adjacent-later m.cache (s ∷ ss) v.links).0;
  }
    where
      starts :
          (b : Bool)
          → m.window.initialized ≡ b
          → StartsAt (if m.window.initialized then m.window.start else s.start) (m.cache ++ s ∷ ss)
      starts true h = rw h (v.start h)
      starts false h = rw (h, empty h) (same s.start)

  -- The oldest entry can leave.
  pub shift_stat-some :
      (w head : Stat) (cache ss : List Stat)
      → w.initialized ≡ true
      → Joined (record { cache = head ∷ cache; window = w }) ss
      → shift_stat apart w head ≡ some (without w head)
  unfolding shift_stat
  shift_stat-some w head cache ss h v = rw (h, v.start h) refl

  pub shifted-Joined :
      (w head : Stat) (cache ss : List Stat)
      → w.initialized ≡ true
      → Joined (record { cache = head ∷ cache; window = w }) ss
      → Joined (shifted w head cache) ss
  unfolding without sub_stat
  shifted-Joined w head cache ss h v = record {
    links = v.links.1;
    start = λ e. v.links.0;
    end = λ e. v.end h;
  }
