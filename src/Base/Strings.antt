-- ===== src/Base/Strings.antt =====
-- A Go string is the list of its bytes. Equality of strings, and a set of strings as a list.
use Prim.Native.Nat.{ℕ}
use Prim.Native.Char.{code}
use Prim.Native.String.{String}
use mathlib.Core.Path.{◌≡◌, refl}
use mathlib.Core.Logic.{◌↔◌}
use mathlib.Core.Bool.{Bool, true, false, not, ◌&&◌, ◌||◌}
use mathlib.Core.List.{List, [], ◌∷◌, ◌++◌}
use native.Mathlib.Omega.{arith}
use test.Base.Tests.{◌==◌, if◌then◌else◌}

abbrev pub Str : Type 0
Str = List ℕ

-- The bytes of an ASCII literal.
abbrev pub codes : String → Str
codes String.[] = []
codes (String.◌∷◌ c s) = code c ∷ codes s

unfoldable pub str_eq : Str → Str → Bool
str_eq [] [] = true
str_eq [] (b ∷ t) = false
str_eq (a ∷ s) [] = false
str_eq (a ∷ s) (b ∷ t) = a == b && str_eq s t

pub str_eq_refl : (s : Str) → str_eq s s ≡ true
unfolding str_eq
str_eq_refl [] = refl
str_eq_refl (a ∷ s) = ground (arith, str_eq_refl s)

pub eq_of_str_eq : (s t : Str) → str_eq s t ≡ true → s ≡ t
unfolding str_eq
eq_of_str_eq [] [] h = refl
eq_of_str_eq [] (b ∷ t) h = cc
eq_of_str_eq (a ∷ s) [] h = cc
eq_of_str_eq (a ∷ s) (b ∷ t) h = ground (arith, eq_of_str_eq s t)

pub str_eq_iff : (s t : Str) → (str_eq s t ≡ true) ↔ (s ≡ t)
str_eq_iff s t = (eq_of_str_eq s t, λ e. rw e (str_eq_refl t))

pub str_eq_comm : (s t : Str) → str_eq s t ≡ str_eq t s
str_eq_comm s t = ground (arith, str_eq_iff s t, str_eq_iff t s)

-- A `map[string]bool` of which only the keys matter.
unfoldable pub has : Str → List Str → Bool
has k [] = false
has k (j ∷ js) = str_eq j k || has k js

unfoldable pub del : Str → List Str → List Str
del k [] = []
del k (j ∷ js) = if str_eq j k then del k js else j ∷ del k js

unfoldable pub add : Str → List Str → List Str
unfolding has
add k js = if has k js then js else k ∷ js

pub has-del : (i k : Str) (js : List Str) → has i (del k js) ≡ (not (str_eq k i) && has i js)
unfolding has del
has-del i k [] = ground arith
has-del i k (j ∷ js) =
    ground (arith, has-del i k js, str_eq_iff j k, str_eq_iff k i, str_eq_iff j i)

pub has-add : (i k : Str) (js : List Str) → has i (add k js) ≡ (str_eq k i || has i js)
unfolding has add
has-add i k js = ground (arith, str_eq_iff k i)

pub has-append : (i : Str) (xs ys : List Str) → has i (xs ++ ys) ≡ (has i xs || has i ys)
unfolding has
has-append i [] ys = refl
has-append i (x ∷ xs) ys = ground (arith, has-append i xs ys)

-- The first bytes of a string, as `strings.HasPrefix` tests them.
unfoldable pub has_prefix : Str → Str → Bool
has_prefix s [] = true
has_prefix [] (b ∷ t) = false
has_prefix (a ∷ s) (b ∷ t) = a == b && has_prefix s t
