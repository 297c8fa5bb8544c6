-- ===== src/SecureLine/Receive.antt =====
-- logger.go: `Recv`, which cuts what sys161 writes into lines.
use test.Base.{
  ℕ, ◌≡◌, ◌≢◌, refl, sym, ap, ◌∙◌, subst, inl, inr, true, false, List, [], ◌∷◌, ◌++◌, Option, none,
  some, Str, All, All-append, Bool-cases, ◌==◌, ==_iff, if◌then◌else◌, has,
}
use mathlib.Core.List.{append_assoc, append-nil}
use test.Grading.{OutputLine, KeyMap}
use test.SecureLine.{
  clean, secure_parts, check_parts, check_secure, check_clean, output_line_complete, is_signature,
  Secure,
}

-- The salts seen, the line under way and the output of the current command.
pub record Received : Type 0 where
  pub salts : List Str
  pub current : OutputLine
  pub output : List OutputLine

abbrev pub new_line : OutputLine
new_line = record { stamped = false; buffer = []; line = []; trusted = false; key_name = [] }

module _ (mac : Str → Str → Str) (key_map : KeyMap) where
  -- One byte is written to the buffer, and the line gets its time stamp.
  unfoldable pub write_byte : ℕ → OutputLine → OutputLine
  write_byte b o = record o { stamped = true; buffer = o.buffer ++ b ∷ [] }

  -- The line is over.
  unfoldable pub finish_line : Received → OutputLine → Received
  unfolding output_line_complete
  finish_line r o =
      let (salts', o') = output_line_complete mac key_map r.salts (record o { line = o.buffer }) in
      record { salts = salts'; current = new_line; output = r.output ++ o' ∷ [] }

  unfoldable pub receive_byte : Received → ℕ → Received
  unfolding write_byte finish_line
  receive_byte r b =
      if b == 10
      then finish_line r (write_byte b r.current)
      else record r { current = write_byte b r.current }

  unfoldable pub receive_all : Received → List ℕ → Received
  unfolding receive_byte
  receive_all r [] = r
  receive_all r (b ∷ bs) = receive_all (receive_byte r b) bs

  -- Everything that was written, in order.
  abbrev buffers : List OutputLine → Str
  buffers [] = []
  buffers (o ∷ os) = o.buffer ++ buffers os

  abbrev pub written : Received → Str
  written r = buffers r.output ++ r.current.buffer

  parts-buffer :
      (salts : List Str) (o : OutputLine) (p : Secure)
      → (check_parts mac key_map salts o p).1.buffer ≡ o.buffer
  unfolding check_parts
  parts-buffer salts o p = elim (Bool-cases (has p.salt salts)) [
    | inl h ↦ rw h refl
    | inr h ↦ elim (Bool-cases (is_signature mac key_map p)) [
      | inl g ↦ rw (h, g) refl
      | inr g ↦ rw (h, g) refl
    ]
  ]

  secure-buffer :
      (salts : List Str) (o : OutputLine) (p : Option Secure)
      → (check_secure mac key_map salts o p).1.buffer ≡ o.buffer
  unfolding check_secure
  secure-buffer salts o none = refl
  secure-buffer salts o (some p) = parts-buffer salts o p

  clean-buffer :
      (salts : List Str) (o : OutputLine) (c : Option Str)
      → (check_clean mac key_map salts o c).1.buffer ≡ o.buffer
  unfolding check_clean
  clean-buffer salts o none = refl
  clean-buffer salts o (some s) = secure-buffer salts (record o { line = s }) (secure_parts s)

  complete-buffer :
      (salts : List Str) (o : OutputLine)
      → (output_line_complete mac key_map salts o).1.buffer ≡ o.buffer
  unfolding output_line_complete
  complete-buffer salts o = clean-buffer salts o (clean o.line)

  buffers-snoc :
      (os : List OutputLine) (o : OutputLine) → buffers (os ++ o ∷ []) ≡ buffers os ++ o.buffer
  buffers-snoc [] o = append-nil o.buffer
  buffers-snoc (x ∷ xs) o =
      ap (λ s. x.buffer ++ s) (buffers-snoc xs o)
      ∙ sym (append_assoc x.buffer (buffers xs) o.buffer)

  -- A line: bytes that are not newlines, and a newline.
  abbrev pub IsLine : OutputLine → Type 0
  IsLine o = (s : Str) × (o.buffer ≡ s ++ 10 ∷ []) × All (λ (c : ℕ). c ≢ 10) s

  -- What was received so far is `all`; the output has whole lines, and the rest is under way.
  pub record Cut (all : Str) (r : Received) : Type 0 where
    pub total : written r ≡ all
    pub lines : All IsLine r.output
    pub rest : All (λ (c : ℕ). c ≢ 10) r.current.buffer

  end-Cut :
      (all : Str) (r : Received) (b : ℕ)
      → b ≡ 10
      → Cut all r
      → Cut (all ++ b ∷ []) (finish_line r (write_byte b r.current))
  unfolding finish_line write_byte
  end-Cut all r b e v =
      let o = record (r.current) {
        stamped = true;
        buffer = r.current.buffer ++ b ∷ [];
        line = r.current.buffer ++ b ∷ [];
      } in
      let done = (output_line_complete mac key_map r.salts o).1 in
      let same : done.buffer ≡ r.current.buffer ++ b ∷ [] = complete-buffer r.salts o in
      record {
        total =
            append-nil _
            ∙ (buffers-snoc r.output done
                ∙ (ap (λ x. buffers r.output ++ x) same
                    ∙ (sym (append_assoc (buffers r.output) r.current.buffer (b ∷ []))
                        ∙ ap (λ x. x ++ b ∷ []) v.total)));
        lines =
            All-append IsLine r.output (done ∷ []) v.lines
              ((r.current.buffer, same ∙ ap (λ x. r.current.buffer ++ x ∷ []) e, v.rest), tt);
        rest = tt;
      }

  more-Cut :
      (all : Str) (r : Received) (b : ℕ)
      → b ≢ 10
      → Cut all r
      → Cut (all ++ b ∷ []) (record r { current = write_byte b r.current })
  unfolding write_byte
  more-Cut all r b e v = record {
    total =
        sym (append_assoc (buffers r.output) r.current.buffer (b ∷ []))
        ∙ ap (λ x. x ++ b ∷ []) v.total;
    lines = v.lines;
    rest = All-append (λ (c : ℕ). c ≢ 10) r.current.buffer (b ∷ []) v.rest (e, tt);
  }

  byte-Cut : (all : Str) (r : Received) (b : ℕ) → Cut all r → Cut (all ++ b ∷ []) (receive_byte r b)
  unfolding receive_byte
  byte-Cut all r b v = elim (Bool-cases (b == 10)) [
    | inl e ↦ rw e (end-Cut all r b ((==_iff b 10).0 e) v)
    | inr e ↦ rw e (more-Cut all r b (λ p. cc ((==_iff b 10).1 p, e)) v)
  ]

  -- Receiving keeps the bytes cut into lines: if what was received before is cut behind each newline
  -- into the lines of output, with the rest in the line under way, then so is all of it after more
  -- bytes, with nothing lost and nothing moved.
  pub receive_all-Cut :
      (bs : List ℕ) (all : Str) (r : Received) → Cut all r → Cut (all ++ bs) (receive_all r bs)
  unfolding receive_all
  receive_all-Cut [] all r v = subst (λ x. Cut x r) (sym (append-nil all)) v
  receive_all-Cut (b ∷ bs) all r v =
      subst (λ x. Cut x (receive_all (receive_byte r b) bs)) (append_assoc all (b ∷ []) bs)
        (receive_all-Cut bs (all ++ b ∷ []) (receive_byte r b) (byte-Cut all r b v))
