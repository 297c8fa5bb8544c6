-- ===== src/SecureLine.antt =====
-- run.go: `outputLineComplete`, which cleans a line of output and checks its signature.
pub mod Trust
pub mod Receive
mod Samples
use test.Base.{
  ℕ, ◌+◌, ◌≡◌, Bool, true, false, not, ◌&&◌, ◌||◌, List, [], ◌∷◌, ◌++◌, Option, none, some, Str,
  codes, str_eq, has, Dict, lookup, is_empty, drop, length, ltb, leb, ◌==◌, has_prefix,
  if◌then◌else◌,
}
use test.Grading.{OutputLine, KeyMap, is_digit}

unfoldable pub is_line_end : ℕ → Bool
is_line_end c = c == 13 || c == 10

-- Without the carriage returns and newlines at its end.
unfoldable pub strip_end : Str → Str
unfolding is_line_end
strip_end [] = []
strip_end (c ∷ s) =
    let rest = strip_end s in if is_empty rest && is_line_end c then [] else c ∷ rest

unfoldable pub without_nulls : Str → Str
without_nulls [] = []
without_nulls (c ∷ s) = let rest = without_nulls s in if c == 0 then rest else c ∷ rest

unfoldable pub is_hex : ℕ → Bool
unfolding is_digit
is_hex c = is_digit c || (leb b'a' c && leb c b'f')

abbrev cons_fst : ℕ → Str × Str → Str × Str
cons_fst c (x, y) = (c ∷ x, y)

abbrev map_cons : ℕ → List (Str × Str) → List (Str × Str)
map_cons c [] = []
map_cons c (p ∷ ps) = cons_fst c p ∷ map_cons c ps

-- What stands before and after each ", ", the longest first. A dot does not match a newline.
unfoldable pub comma_splits : Str → List (Str × Str)
unfolding has_prefix
comma_splits [] = []
comma_splits (c ∷ s) =
    let rest = comma_splits s in
    (if c == 10 then [] else map_cons c rest)
    ++ (if has_prefix (c ∷ s) (codes ", ") then ([], drop 2 (c ∷ s)) ∷ [] else [])

-- The longest run of hexadecimal digits, and what follows it.
unfoldable pub span_hex : Str → Str × Str
unfolding is_hex
span_hex [] = ([], [])
span_hex (c ∷ s) = let more = cons_fst c (span_hex s) in if is_hex c then more else ([], c ∷ s)

-- A text up to the closing parenthesis at its end.
unfoldable pub message : Str → Option Str
message [] = none
message (c ∷ []) = if c == b')' then some [] else none
message (c ∷ d ∷ s) = elim (message (d ∷ s)) [
  | none ↦ none
  | some m ↦ if c == 10 then none else some (c ∷ m)
]

-- The parts that secprintf writes.
pub record Secure : Type 0 where
  pub id : Str
  pub hash : Str
  pub salt : Str
  pub text : Str

-- The salt, which starts with a hexadecimal digit, and the message: the first split that fits.
unfoldable pub salt_text : Str → Str → List (Str × Str) → Option Secure
unfolding message is_hex
salt_text id hash [] = none
salt_text id hash (([], after) ∷ ps) = salt_text id hash ps
salt_text id hash ((c ∷ salt, after) ∷ ps) =
    let rest = salt_text id hash ps in
    elim (message after) [
      | none ↦ rest
      | some m ↦
          if is_hex c
          then some (record { id = id; hash = hash; salt = c ∷ salt; text = m })
          else rest
    ]

unfoldable pub hash_part : Str → Str × Str → Option Secure
unfolding salt_text comma_splits has_prefix
hash_part id (hash, rest) =
    if has_prefix rest (codes ", ") then salt_text id hash (comma_splits (drop 2 rest)) else none

unfoldable pub id_part : List (Str × Str) → Option Secure
unfolding hash_part span_hex
id_part [] = none
id_part ((id, after) ∷ ps) =
    let rest = id_part ps in elim (hash_part id (span_hex after)) [ some m ↦ some m | none ↦ rest ]

-- `^\((.*), ([0-9a-f]*), ([0-9a-f].*), (.*)\)$`
unfoldable pub secure_parts : Str → Option Secure
unfolding id_part comma_splits
secure_parts [] = none
secure_parts (c ∷ s) = if c == b'(' then id_part (comma_splits s) else none

-- The line before its signature is checked. `none`: the source returns early, with an empty line.
unfoldable pub clean : Str → Option Str
unfolding strip_end without_nulls
clean s = if length (strip_end s) == 1 then none else some (without_nulls (strip_end s))

-- `mac key text` is the HMAC-SHA256 in lower-case hexadecimal digits.
module _ (mac : Str → Str → Str) (key_map : KeyMap) where
  abbrev or_empty : Option Str → Str
  or_empty none = []
  or_empty (some k) = k

  -- A missing key is the empty one.
  unfoldable pub key_of : Str → Str
  key_of id = or_empty (lookup id key_map)

  unfoldable pub is_signature : Secure → Bool
  unfolding key_of
  is_signature p = str_eq (mac (key_of p.id ++ p.salt) p.text) p.hash

  -- What the line says, when it has the form of secprintf.
  unfoldable pub check_parts : List Str → OutputLine → Secure → List Str × OutputLine
  unfolding is_signature
  check_parts salts o p = if has p.salt salts then (salts, record o { trusted = false }) else (
    p.salt ∷ salts,
    if is_signature p then record o { trusted = true; key_name = p.id; line = p.text } else o,
  )

  unfoldable pub check_secure : List Str → OutputLine → Option Secure → List Str × OutputLine
  unfolding check_parts
  check_secure salts o none = (salts, o)
  check_secure salts o (some p) = check_parts salts o p

  unfoldable pub check_clean : List Str → OutputLine → Option Str → List Str × OutputLine
  unfolding check_secure secure_parts
  check_clean salts o none = (salts, record o { line = [] })
  check_clean salts o (some s) = check_secure salts (record o { line = s }) (secure_parts s)

  -- `salts`: the salts that the test has seen.
  unfoldable pub output_line_complete : List Str → OutputLine → List Str × OutputLine
  unfolding check_clean clean
  output_line_complete salts o = check_clean salts o (clean o.line)

  -- The lines of a test, one after the other.
  unfoldable pub complete_lines : List Str → List OutputLine → List Str × List OutputLine
  unfolding output_line_complete
  complete_lines salts [] = (salts, [])
  complete_lines salts (o ∷ os) =
      let (salts', o') = output_line_complete salts o in
      let (salts'', os') = complete_lines salts' os in (salts'', o' ∷ os')
