-- ===== src/Stats/Window.antt =====
-- The monitor's window holds the sums of the cached counters.
use test.Base.{
  ℕ, suc, ◌+◌, ◌%◌, ◌^◌, ◌≡◌, ◌≤◌, ◌<◌, refl, sym, ap, ◌∙◌, inl, inr, Bool, true, false, List, [],
  ◌∷◌, ◌++◌, some, length, length-append, All, All-append, sum_by, sum_by-append, ◌==◌, ==_iff,
  Bool-cases, arith,
}
use test.Stats.{
  Stat, Monitor, add_u64, sub_u64, add_stat, sub_stat, appended, without, drop_oldest, slide,
  empty_stat, empty_monitor, slide_all,
}
use test.Stats.Counters.{
  Counter, nsec, kinsns, uinsns, udud, idle, irqs, exns, disk, con, emu, net, insns, Width, w32,
  w64, modulus, width, value, Fits, appended-value, without-value, wrap_add, wrap_sub,
}
use test.Stats.Adjacent.{
  Adjacent, Joined, put, put_stat-some, put-Joined, shifted, shift_stat-some, shifted-Joined,
}

-- The window counts the cached stats and holds the sums of their counters, modulo the word.
pub record Summed (size : ℕ) (m : Monitor) : Type 0 where
  pub count : m.window.count ≡ length m.cache
  pub started : m.window.initialized ≡ false → m.cache ≡ []
  pub size_le : length m.cache ≤ size
  pub sums : (c : Counter) → value c m.window ≡ sum_by (value c) m.cache % modulus (width c)
  pub fit : All Fits m.cache

zero-mod : (w : Width) → 0 ≡ 0 % modulus w
unfolding modulus
zero-mod w32 = refl
zero-mod w64 = refl

empty-Summed : (size : ℕ) → Summed size empty_monitor
unfolding empty_monitor empty_stat
empty-Summed size = record {
  count = refl;
  started = λ e. refl;
  size_le = omega arith;
  sums = λ c. empty-value c ∙ zero-mod (width c);
  fit = tt;
}
  where
    empty-value : (c : Counter) → value c empty_stat ≡ 0
    empty-value nsec = refl
    empty-value kinsns = refl
    empty-value uinsns = refl
    empty-value udud = refl
    empty-value idle = refl
    empty-value irqs = refl
    empty-value exns = refl
    empty-value disk = refl
    empty-value con = refl
    empty-value emu = refl
    empty-value net = refl
    empty-value insns = refl

sum-snoc :
    (c : Counter) (cache : List Stat) (s : Stat)
    → sum_by (value c) (cache ++ s ∷ []) ≡ sum_by (value c) cache + value c s
sum-snoc c cache s = omega (arith, sum_by-append (value c) cache (s ∷ []))

append-count :
    (i j : Stat) (cache : List Stat)
    → i.count ≡ length cache
    → (i.initialized ≡ false → cache ≡ [])
    → suc (length cache) < 2 ^ 64
    → ((appended i j).count ≡ suc (length cache)) × ((appended i j).initialized ≡ true)
unfolding appended add_stat add_u64
append-count i j cache e f lt = elim (Bool-cases i.initialized) [
  | inl h ↦ rw h (omega (arith, e, lt), refl)
  | inr h ↦
      rw h (
        let g : length cache ≡ 0 = ap (λ (x : List Stat). length x) (f h) in omega (arith, g),
        refl,
      )
]

put-Summed :
    (size : ℕ) (m : Monitor) (s : Stat)
    → size < 2 ^ 64
    → length m.cache < size
    → Summed size m
    → Fits s
    → Summed size (put m s)
put-Summed size m s big lt v f =
    let (n, started) = append-count m.window s m.cache v.count v.started (omega (arith, big, lt)) in
    let len = length-append m.cache (s ∷ []) in
    record {
      count = omega (arith, n, len);
      started = λ e. cc (e, started);
      size_le = omega (arith, len, lt);
      sums = λ c.
          appended-value c m.window s
          ∙ (wrap_add (width c) (value c m.window) (sum_by (value c) m.cache) (value c s) (v.sums c)
              ∙ ap (λ x. x % modulus (width c)) (sym (sum-snoc c m.cache s)));
      fit = All-append Fits m.cache (s ∷ []) v.fit (f, tt);
    }

without-count :
    (i j : Stat) (n : ℕ)
    → i.count ≡ suc n
    → suc n < 2 ^ 64
    → ((without i j).count ≡ n) × ((without i j).initialized ≡ i.initialized)
unfolding without sub_stat sub_u64
without-count i j n e lt = (omega (arith, e, lt), refl)

without-Summed :
    (size : ℕ) (w head : Stat) (cache : List Stat)
    → size < 2 ^ 64
    → Summed size (record { cache = head ∷ cache; window = w })
    → (w.initialized ≡ true) × Summed size (record { cache = cache; window = without w head })
without-Summed size w head cache big v = elim (Bool-cases w.initialized) [
  | inr h ↦ cc (v.started h)
  | inl h ↦
      let (n, same) = without-count w head (length cache) v.count (omega (arith, big, v.size_le)) in
      (
        h,
        record {
          count = n;
          started = λ e. cc (e, same, h);
          size_le = omega (arith, v.size_le);
          sums = λ c.
              without-value c w head
              ∙ wrap_sub (width c) (value c w) (sum_by (value c) cache) (value c head) (v.sums c)
                  (v.fit.0 c);
          fit = v.fit.1;
        },
      )
]

module _ (apart : ℕ → ℕ → Bool) (same : (t : ℕ) → apart t t ≡ false) (size : ℕ) (pos : 0 < size)
    (big : size < 2 ^ 64) where
  abbrev Good : Monitor → List Stat → Type 0
  Good m ss = Summed size m × Joined apart m ss

  put-Good :
      (m : Monitor) (s : Stat) (ss : List Stat)
      → length m.cache < size
      → Fits s
      → Good m (s ∷ ss)
      → Good (put m s) ss
  put-Good m s ss lt f (v, j) =
      (put-Summed size m s big lt v f, put-Joined apart same m s ss v.started j)

  drop-Good :
      (s w : Stat) (cache ss : List Stat)
      → length cache ≡ size
      → Fits s
      → Good (record { cache = cache; window = w }) (s ∷ ss)
      → (m : Monitor) × (drop_oldest apart s w cache ≡ some m) × Good m ss
  unfolding drop_oldest
  drop-Good s w [] ss len f v = ground (arith, pos)
  drop-Good s w (head ∷ cache) ss len f (v, j) =
      let (h, u) = without-Summed size w head cache big v in
      let k = shifted-Joined apart w head cache (s ∷ ss) h j in
      let m = shifted w head cache in
      (
        put m s,
        rw (shift_stat-some apart w head cache (s ∷ ss) h j) (put_stat-some apart m s ss k),
        put-Good m s ss (omega (arith, len)) f (u, k),
      )

  slide-Good :
      (m : Monitor) (s : Stat) (ss : List Stat)
      → Fits s
      → Good m (s ∷ ss)
      → (m' : Monitor) × (slide apart size m s ≡ some m') × Good m' ss
  unfolding slide
  slide-Good m s ss f v = elim (Bool-cases (length m.cache == size)) [
    | inl e ↦
        let (m', q, u) = drop-Good s m.window m.cache ss ((==_iff (length m.cache) size).0 e) f v in
        (m', rw e q, u)
    | inr e ↦
        let lt : length m.cache < size =
          ground (arith, v.0.size_le, ==_iff (length m.cache) size) in
        (put m s, rw e (put_stat-some apart m s ss v.1), put-Good m s ss lt f v)
  ]

  slides-Good :
      (ss : List Stat) (m : Monitor)
      → All Fits ss
      → Good m ss
      → (m' : Monitor) × (slide_all apart size m ss ≡ some m') × Summed size m'
  unfolding slide_all
  slides-Good [] m f v = (m, refl, v.0)
  slides-Good (s ∷ ss) m f v =
      let (m1, q, u) = slide-Good m s ss f.0 v in
      let (m2, r, x) = slides-Good ss m1 f.1 u in (m2, rw (q, slide_all) r, x)

  empty-Joined : (ss : List Stat) → Adjacent apart ss → Joined apart empty_monitor ss
  unfolding empty_monitor empty_stat
  empty-Joined ss h = record { links = h; start = λ e. cc e; end = λ e. cc e }

  -- With a window of at least one entry, the monitor takes any messages that are adjacent, each to the
  -- one before it, without a panic, and then its window counts the cached stats, no more than its
  -- size, and holds the sums of their counters, modulo the counters' words: what left the window was
  -- taken off exactly. No time is `apart` from itself.
  pub slide_all-Summed :
      (ss : List Stat)
      → All Fits ss
      → Adjacent apart ss
      → (m : Monitor) × (slide_all apart size empty_monitor ss ≡ some m) × Summed size m
  slide_all-Summed ss f adjacent =
      slides-Good ss empty_monitor f (empty-Summed size, empty-Joined ss adjacent)
