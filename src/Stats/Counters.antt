-- ===== src/Stats/Counters.antt =====
-- The counters of a stat, one by one, and their words.
use test.Base.{ℕ, ◌+◌, ◌-◌, ◌%◌, ◌^◌, ◌≡◌, ◌<◌, refl, arith}
use test.Stats.{Stat, add_u32, sub_u32, add_u64, sub_u64, add_stat, sub_stat, appended, without}

pub data Counter : Type 0 where
  nsec kinsns uinsns udud idle irqs exns disk con emu net insns : Counter

pub data Width : Type 0 where
  w32 w64 : Width

unfoldable pub modulus : Width → ℕ
modulus w32 = 2 ^ 32
modulus w64 = 2 ^ 64

unfoldable pub width : Counter → Width
width nsec = w64
width _ = w32

-- The counter of a stat.
abbrev pub value : Counter → Stat → ℕ
value nsec s = s.nsec
value kinsns s = s.kinsns
value uinsns s = s.uinsns
value udud s = s.udud
value idle s = s.idle
value irqs s = s.irqs
value exns s = s.exns
value disk s = s.disk
value con s = s.con
value emu s = s.emu
value net s = s.net
value insns s = s.insns

-- The counters fit into their words.
abbrev pub Fits : Stat → Type 0
Fits s = (c : Counter) → value c s < modulus (width c)

pub appended-value :
    (c : Counter) (i j : Stat)
    → value c (appended i j) ≡ (value c i + value c j) % modulus (width c)
unfolding appended add_stat add_u32 add_u64 modulus width
appended-value nsec i j = refl
appended-value kinsns i j = refl
appended-value uinsns i j = refl
appended-value udud i j = refl
appended-value idle i j = refl
appended-value irqs i j = refl
appended-value exns i j = refl
appended-value disk i j = refl
appended-value con i j = refl
appended-value emu i j = refl
appended-value net i j = refl
appended-value insns i j = refl

pub without-value :
    (c : Counter) (i j : Stat)
    → value c (without i j) ≡ (value c i + modulus (width c) - value c j) % modulus (width c)
unfolding without sub_stat sub_u32 sub_u64 modulus width
without-value nsec i j = refl
without-value kinsns i j = refl
without-value uinsns i j = refl
without-value udud i j = refl
without-value idle i j = refl
without-value irqs i j = refl
without-value exns i j = refl
without-value disk i j = refl
without-value con i j = refl
without-value emu i j = refl
without-value net i j = refl
without-value insns i j = refl

pub wrap_add :
    (w : Width) (a t x : ℕ) → a ≡ t % modulus w → (a + x) % modulus w ≡ (t + x) % modulus w
unfolding modulus
wrap_add w32 a t x h = omega (arith, h)
wrap_add w64 a t x h = omega (arith, h)

pub wrap_sub :
    (w : Width) (a t x : ℕ)
    → a ≡ (x + t) % modulus w
    → x < modulus w
    → (a + modulus w - x) % modulus w ≡ t % modulus w
unfolding modulus
wrap_sub w32 a t x h lt = omega (arith, h, lt)
wrap_sub w64 a t x h lt = omega (arith, h, lt)
