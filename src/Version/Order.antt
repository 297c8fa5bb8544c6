-- ===== src/Version/Order.antt =====
-- Versions are in lexicographic order.
use test.Base.{◌≡◌, ◌<◌, ◌↔◌, ◌⊎◌, subst, arith}
use test.Version.{ProgramVersion, older, same, newer, compare_to}

-- The first number that differs decides.
abbrev pub Older : ProgramVersion → ProgramVersion → Type 0
Older v w =
    (v.major < w.major)
    ⊎ ((v.major ≡ w.major)
        × ((v.minor < w.minor) ⊎ ((v.minor ≡ w.minor) × (v.revision < w.revision))))

newer_iff : (v w : ProgramVersion) → (compare_to v w ≡ newer) ↔ Older w v
unfolding compare_to
newer_iff v w = ground arith

older_iff : (v w : ProgramVersion) → (compare_to v w ≡ older) ↔ Older v w
unfolding compare_to
older_iff v w = ground arith

same_iff : (v w : ProgramVersion) → (compare_to v w ≡ same) ↔ (v ≡ w)
unfolding compare_to
same_iff v w = (
  (λ h.
      let a : v.major ≡ w.major = ground arith in
      let b : v.minor ≡ w.minor = ground arith in
      let c : v.revision ≡ w.revision = ground arith in
      λ i. record { major = a i; minor = b i; revision = c i }),
  (λ e. subst (λ x. compare_to v x ≡ same) e (ground arith)),
)

-- Comparing versions is comparing their numbers lexicographically, and it says "same" only of equal
-- versions.
pub compare_to-Older :
    (v w : ProgramVersion)
    → ((compare_to v w ≡ newer) ↔ Older w v)
      × ((compare_to v w ≡ older) ↔ Older v w)
      × ((compare_to v w ≡ same) ↔ (v ≡ w))
compare_to-Older v w = (newer_iff v w, older_iff v w, same_iff v w)
