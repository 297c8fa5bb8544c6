-- ===== src/Stats.antt =====
-- stats.go: sys161's counters, and the window of them that the monitor looks at.
pub mod Counters
pub mod Adjacent
pub mod Window
mod Samples
use test.Base.{
  ℕ, ◌+◌, ◌-◌, ◌%◌, ◌^◌, ◌≡◌, Bool, true, false, not, ◌&&◌, ◌||◌, List, [], ◌∷◌, ◌++◌, Option, none,
  some, length, ◌==◌, if◌then◌else◌,
}

-- `start` and `end` are simulated times, as the bits of a float64; the wall times and the two lengths,
-- on which nothing here depends, are left out. `nsec` has 64 bits, the other counters 32.
pub record Stat : Type 0 where
  pub initialized : Bool
  pub start : ℕ
  pub end : ℕ
  pub count : ℕ
  pub nsec : ℕ
  pub kinsns : ℕ
  pub uinsns : ℕ
  pub udud : ℕ
  pub idle : ℕ
  pub irqs : ℕ
  pub exns : ℕ
  pub disk : ℕ
  pub con : ℕ
  pub emu : ℕ
  pub net : ℕ
  pub insns : ℕ

unfoldable pub add_u32 : ℕ → ℕ → ℕ
add_u32 a b = (a + b) % 2 ^ 32

-- `b` is less than 2 ^ 32.
unfoldable pub sub_u32 : ℕ → ℕ → ℕ
sub_u32 a b = (a + 2 ^ 32 - b) % 2 ^ 32

unfoldable pub add_u64 : ℕ → ℕ → ℕ
add_u64 a b = (a + b) % 2 ^ 64

unfoldable pub sub_u64 : ℕ → ℕ → ℕ
sub_u64 a b = (a + 2 ^ 64 - b) % 2 ^ 64

unfoldable pub add_stat : Stat → Stat → Stat
unfolding add_u32 add_u64
add_stat i j = record i {
  nsec = add_u64 i.nsec j.nsec;
  kinsns = add_u32 i.kinsns j.kinsns;
  uinsns = add_u32 i.uinsns j.uinsns;
  udud = add_u32 i.udud j.udud;
  idle = add_u32 i.idle j.idle;
  irqs = add_u32 i.irqs j.irqs;
  exns = add_u32 i.exns j.exns;
  disk = add_u32 i.disk j.disk;
  con = add_u32 i.con j.con;
  emu = add_u32 i.emu j.emu;
  net = add_u32 i.net j.net;
  insns = add_u32 i.insns j.insns;
}

unfoldable pub sub_stat : Stat → Stat → Stat
unfolding sub_u32 sub_u64
sub_stat i j = record i {
  nsec = sub_u64 i.nsec j.nsec;
  kinsns = sub_u32 i.kinsns j.kinsns;
  uinsns = sub_u32 i.uinsns j.uinsns;
  udud = sub_u32 i.udud j.udud;
  idle = sub_u32 i.idle j.idle;
  irqs = sub_u32 i.irqs j.irqs;
  exns = sub_u32 i.exns j.exns;
  disk = sub_u32 i.disk j.disk;
  con = sub_u32 i.con j.con;
  emu = sub_u32 i.emu j.emu;
  net = sub_u32 i.net j.net;
  insns = sub_u32 i.insns j.insns;
}

-- `j` in the window, which starts with `j` if it was empty.
unfoldable pub appended : Stat → Stat → Stat
unfolding add_stat add_u64
appended i j =
    add_stat
      (record i {
        initialized = true;
        start = if i.initialized then i.start else j.start;
        end = j.end;
        count = if i.initialized then add_u64 i.count 1 else 1;
      })
      j

-- Without the oldest entry.
unfoldable pub without : Stat → Stat → Stat
unfolding sub_stat sub_u64
without i j = sub_stat (record i { count = sub_u64 i.count 1; start = j.end }) j

-- The monitor's cache, oldest first, and its window.
pub record Monitor : Type 0 where
  pub cache : List Stat
  pub window : Stat

abbrev with_window : List Stat → Option Stat → Option Monitor
with_window cache none = none
with_window cache (some w) = some (record { cache = cache; window = w })

-- `apart x y` is the float64 comparison `x - y > 0.00001`. `none`: a panic.
module _ (apart : ℕ → ℕ → Bool) where
  unfoldable pub append_stat : Stat → Stat → Option Stat
  unfolding appended
  append_stat i j = if i.initialized && apart i.end j.start then none else some (appended i j)

  unfoldable pub shift_stat : Stat → Stat → Option Stat
  unfolding without
  shift_stat i j = if not i.initialized || apart i.start j.start then none else some (without i j)

  unfoldable pub put_stat : Monitor → Stat → Option Monitor
  unfolding append_stat
  put_stat m s = with_window (m.cache ++ s ∷ []) (append_stat m.window s)

  abbrev then_put : List Stat → Stat → Option Stat → Option Monitor
  then_put cache s none = none
  then_put cache s (some w) = put_stat (record { cache = cache; window = w }) s

  -- The oldest entry leaves; an empty cache has none.
  unfoldable pub drop_oldest : Stat → Stat → List Stat → Option Monitor
  unfolding shift_stat put_stat
  drop_oldest s w [] = none
  drop_oldest s w (head ∷ cache) = then_put cache s (shift_stat w head)

  -- One message of the stats socket, with a window of `size` entries.
  unfoldable pub slide : ℕ → Monitor → Stat → Option Monitor
  unfolding drop_oldest put_stat
  slide size m s = if length m.cache == size then drop_oldest s m.window m.cache else put_stat m s

unfoldable pub empty_stat : Stat
empty_stat = record {
  initialized = false;
  start = 0;
  end = 0;
  count = 0;
  nsec = 0;
  kinsns = 0;
  uinsns = 0;
  udud = 0;
  idle = 0;
  irqs = 0;
  exns = 0;
  disk = 0;
  con = 0;
  emu = 0;
  net = 0;
  insns = 0;
}

unfoldable pub empty_monitor : Monitor
unfolding empty_stat
empty_monitor = record { cache = []; window = empty_stat }

abbrev pub and_then : Option Monitor → (Monitor → Option Monitor) → Option Monitor
and_then none f = none
and_then (some m) f = f m

module _ (apart : ℕ → ℕ → Bool) where
  -- The messages one after the other.
  unfoldable pub slide_all : ℕ → Monitor → List Stat → Option Monitor
  unfolding slide
  slide_all size m [] = some m
  slide_all size m (s ∷ ss) = and_then (slide apart size m s) (λ m'. slide_all size m' ss)
