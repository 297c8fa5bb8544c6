-- ===== src/SecureLine/Samples.antt =====
-- Signed lines, a replayed one, and a line of one character.
use test.Base.{
  ℕ, List, ◌≡◌, ◌↔◌, refl, true, false, [], ◌∷◌, ◌++◌, some, Str, codes, str_eq, has, lookup,
  has_prefix, if◌then◌else◌,
}
use test.Grading.{OutputLine, KeyMap}
use test.SecureLine.{Secure, clean, secure_parts, output_line_complete, complete_lines}
use test.SecureLine.Receive.{Received, new_line, receive_all, Cut, receive_all-Cut}
use test.SecureLine.Trust.{Signed, output_line_complete-Signed, replay_rejected}

-- One signature is known to this function, in place of HMAC-SHA256.
mac : Str → Str → Str
unfolding str_eq
mac key text = if str_eq (key ++ text) (codes "secret1fkhu: 4096") then codes "beef" else codes "0"

program : Unit {0}
unfolding mac output_line_complete complete_lines clean secure_parts str_eq has has_prefix lookup
program = tt

abbrev keys : KeyMap
keys = (codes "khu", codes "secret") ∷ []

abbrev heard : Str → OutputLine
heard l = record { stamped = true; buffer = l; line = l; trusted = false; key_name = [] }

abbrev signed : OutputLine
signed = heard (codes "(khu, beef, 1f, khu: 4096)" ++ 13 ∷ 13 ∷ 10 ∷ [])

abbrev parts : Secure
parts = record {
  id = codes "khu";
  hash = codes "beef";
  salt = codes "1f";
  text = codes "khu: 4096";
}

trusted_line :
    (output_line_complete mac keys [] signed).1
    ≡ record signed { trusted = true; key_name = codes "khu"; line = codes "khu: 4096" }
unfolding program
trusted_line = refl

-- The first group takes as much as it can.
greedy :
    secure_parts (codes "(a, b, c0, 1, f, m)")
    ≡ some (record { id = codes "a, b, c0"; hash = codes "1"; salt = codes "f"; text = codes "m" })
unfolding program
greedy = refl

-- A line of one character is emptied.
one_character : (output_line_complete mac keys [] (heard (codes "x" ++ 10 ∷ []))).1.line ≡ []
unfolding program
one_character = refl

output_line_complete-Signed_example :
    ((output_line_complete mac keys [] signed).1.trusted ≡ true) ↔ Signed mac keys [] signed.line
output_line_complete-Signed_example = output_line_complete-Signed mac keys [] signed refl

replay_rejected_example : (output_line_complete mac keys (codes "1f" ∷ []) signed).1.trusted ≡ false
unfolding program
replay_rejected_example =
    replay_rejected mac keys [] signed signed (heard (codes "starting") ∷ []) parts parts
      (refl, (refl, tt), refl) refl refl refl

abbrev nothing_yet : Received
nothing_yet = record { salts = []; current = new_line; output = [] }

abbrev chunk : List ℕ
chunk = signed.line ++ codes "OS/161 "

receive_all-Cut_example : Cut mac keys chunk (receive_all mac keys nothing_yet chunk)
receive_all-Cut_example =
    receive_all-Cut mac keys chunk [] nothing_yet (record { total = refl; lines = tt; rest = tt })
