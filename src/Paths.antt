-- ===== src/Paths.antt =====
-- The functions of Go's path and path/filepath that groups.go calls, on paths as byte strings.
mod Samples
use test.Base.{
  ℕ, suc, ◌≡◌, Bool, true, false, not, ◌&&◌, ◌||◌, List, [], ◌∷◌, ◌++◌, Option, none, some, Str,
  codes, str_eq, is_empty, ◌==◌, if◌then◌else◌,
}
use mathlib.Core.List.{reverse}

abbrev slash : ℕ
slash = b'/'

-- The parts of a path between its slashes, the empty ones with them. `part`: the current one, reversed.
split_at : Str → Str → List Str
split_at part [] = reverse part ∷ []
split_at part (b ∷ s) =
    let later = split_at [] s in if b == slash then reverse part ∷ later else split_at (b ∷ part) s

unfoldable pub split_slash : Str → List Str
unfolding split_at
split_slash s = split_at [] s

-- `IsAbs`
unfoldable pub is_abs : Str → Bool
is_abs [] = false
is_abs (b ∷ s) = b == slash

-- A part `..`, behind the parts kept so far, the last one first.
step_up : Bool → List Str → List Str
step_up rooted [] = if rooted then [] else codes ".." ∷ []
step_up rooted (p ∷ ps) = if str_eq p (codes "..") then codes ".." ∷ p ∷ ps else ps

unfoldable pub clean_parts : Bool → List Str → List Str → List Str
unfolding step_up
clean_parts rooted kept [] = reverse kept
clean_parts rooted kept (p ∷ ps) =
    clean_parts rooted
      (if is_empty p || str_eq p (codes ".")
        then kept
        else if str_eq p (codes "..")
        then step_up rooted kept
        else p ∷ kept)
      ps

-- The parts of the cleaned path.
unfoldable pub parts : Str → List Str
unfolding split_slash is_abs clean_parts
parts s = clean_parts (is_abs s) [] (split_slash s)

unfoldable pub join_parts : List Str → Str
join_parts [] = []
join_parts (p ∷ []) = p
join_parts (p ∷ q ∷ ps) = p ++ slash ∷ join_parts (q ∷ ps)

-- `Clean`
unfoldable pub clean : Str → Str
unfolding parts join_parts
clean s =
    if is_abs s
    then slash ∷ join_parts (parts s)
    else if is_empty (parts s)
    then codes "."
    else join_parts (parts s)

-- `Join`, of two paths.
unfoldable pub join : Str → Str → Str
unfolding clean
join a b = if is_empty a then (if is_empty b then [] else clean b) else clean (a ++ slash ∷ b)

-- The path up to its last slash.
up_to_slash : Str → Str
up_to_slash [] = []
up_to_slash (b ∷ s) =
    let rest = up_to_slash s in
    if is_empty rest then (if b == slash then b ∷ [] else []) else b ∷ rest

-- `Dir`
unfoldable pub dir : Str → Str
unfolding clean up_to_slash
dir s = clean (up_to_slash s)

-- `Abs`, in a working directory.
unfoldable pub abs : Str → Str → Str
unfolding clean join
abs cwd s = if is_abs s then clean s else join cwd s

climb : List Str → List Str → List Str
climb [] us = us
climb (c ∷ cs) us = codes ".." ∷ climb cs us

-- The way from one list of parts to another.
rel_parts : List Str → List Str → List Str
unfolding climb
rel_parts [] ts = ts
rel_parts (b ∷ bs) [] = climb (b ∷ bs) []
rel_parts (b ∷ bs) (t ∷ ts) =
    let same = rel_parts bs ts in if str_eq b t then same else climb (b ∷ bs) (t ∷ ts)

-- `Rel`, of absolute paths.
unfoldable pub rel : Str → Str → Str
unfolding parts rel_parts join_parts
rel base target =
    let way = rel_parts (parts base) (parts target) in
    if is_empty way then codes "." else join_parts way
