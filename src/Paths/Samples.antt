-- ===== src/Paths/Samples.antt =====
-- Paths as Go's documentation gives them.
use test.Base.{◌≡◌, refl, codes, str_eq}
use test.Paths.{clean, join, dir, rel, abs}

cleaned : clean (codes "/a/./b//../c/") ≡ codes "/a/c"
unfolding clean str_eq
cleaned = refl

cleaned_up : clean (codes "../a/../..") ≡ codes "../.."
unfolding clean str_eq
cleaned_up = refl

cleaned_root : clean (codes "/../a") ≡ codes "/a"
unfolding clean str_eq
cleaned_root = refl

joined : join (codes "a/b") (codes "../c") ≡ codes "a/c"
unfolding join str_eq
joined = refl

parent : dir (codes "/a/b/c.t") ≡ codes "/a/b"
unfolding dir str_eq
parent = refl

relative : rel (codes "/a") (codes "/b/c") ≡ codes "../b/c"
unfolding rel str_eq
relative = refl

relative_below : rel (codes "/a") (codes "/a/b/c") ≡ codes "b/c"
unfolding rel str_eq
relative_below = refl

absolute : abs (codes "/home") (codes "tests/x.t") ≡ codes "/home/tests/x.t"
unfolding abs str_eq
absolute = refl
