-- ===== src/Version.antt =====
-- version.go: the version of the program, and how versions compare.
pub mod Order
mod Samples
use test.Base.{ℕ, ◌≡◌, Bool, true, false, ltb, if◌then◌else◌}

pub record ProgramVersion : Type 0 where
  pub major : ℕ
  pub minor : ℕ
  pub revision : ℕ

-- The source's -1, 0 and 1.
pub data Comparison : Type 0 where
  older same newer : Comparison

unfoldable pub compare_to : ProgramVersion → ProgramVersion → Comparison
compare_to v w =
    if ltb w.major v.major
    then newer
    else if ltb v.major w.major
    then older
    else if ltb w.minor v.minor
    then newer
    else if ltb v.minor w.minor
    then older
    else if ltb w.revision v.revision
    then newer
    else if ltb v.revision w.revision
    then older
    else same
