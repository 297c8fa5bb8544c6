-- ===== src/Version/Samples.antt =====
-- Two versions.
use test.Base.{ℕ, ◌≡◌, refl}
use test.Version.{ProgramVersion, newer, compare_to}

abbrev version : ℕ → ℕ → ℕ → ProgramVersion
version a b c = record { major = a; minor = b; revision = c }

minor_first : compare_to (version 1 3 2) (version 1 2 9) ≡ newer
unfolding compare_to
minor_first = refl
