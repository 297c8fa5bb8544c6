-- ===== src/Base/Words.antt =====
-- A Go `uint` of 64 bits.
use Prim.Native.Nat.{ℕ, ◌+◌, ◌%◌, ◌^◌}

-- A machine word's addition.
unfoldable pub add64 : ℕ → ℕ → ℕ
add64 a b = (a + b) % 2 ^ 64
