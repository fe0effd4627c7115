-- ===== src/Ssh/Jobs/Reading.antt =====
-- What src/vpsmcp/ssh/jobs.py reads in the answer of the script that prints a part of a job's output and its size.
use Prim.Native.String
use Prim.Native.String.{[], ◌∷◌}
use Prim.Native.Char.{Char, code}
use text.Mathlib.Text.{starts_with}
use text.Mathlib.TextLemmas.{nil-append, cons-append, head-eq_of_cons-eq, tail-eq_of_cons-eq}
use text.Mathlib.TextEquality.{starts_with_iff}
use text.Mathlib.TextPositions.{starts_with-append}
use text.Mathlib.TextBridge.{IsPrefix}
use letkite_lite.Prelude.{
  ℕ, ◌+◌, ◌≤◌, min, true, false, String, ◌≡◌, ◌≢◌, refl, sym, ap, ◌∙◌, none, some, if◌then◌else◌,
  Bool-cases, inl, inr, arith,
}
use letkite_lite.Prelude.Text.{strip, lstrip, rstrip, is_space, slice_from}
use letkite_lite.Ssh.Session.{digits_from, rpartition, rstrip_newlines}
use letkite_lite.Ssh.Jobs.{OutputCall, JobOutput, read_output, encoded_length}

-- A text of decimal digits.
abbrev pub AreDigits : String → Type 0
AreDigits [] = Unit {0}
AreDigits (c ∷ s) = (b'0' ≤ code c) × (code c ≤ b'9') × AreDigits s

-- What the script prints: a part of the file, and the size.
abbrev pub printed : String → String → String
printed part size = String.◌++◌ part (String.◌++◌ "\n__SIZE__" (String.◌++◌ size "\n"))

starts-head : (c d : Char) (s t : String) → code c ≢ code d → starts_with (c ∷ s) (d ∷ t) ≡ false
starts-head c d s t differ = elim (Bool-cases (starts_with (c ∷ s) (d ∷ t))) [
  | inl starts ↦
      let h = (starts_with_iff (c ∷ s) (d ∷ t)).0 starts in
      absurd (differ (ap code (sym (head-eq_of_cons-eq (sym (cons-append d t h.0) ∙ h.1)))))
  | inr other ↦ other
]

starts-tail :
    (c : Char) (s t : String) → starts_with s t ≡ false → starts_with (c ∷ s) (c ∷ t) ≡ false
starts-tail c s t other = elim (Bool-cases (starts_with (c ∷ s) (c ∷ t))) [
  | inl starts ↦
      let h = (starts_with_iff (c ∷ s) (c ∷ t)).0 starts in
      let shorter : IsPrefix t s = (h.0, tail-eq_of_cons-eq (sym (cons-append c t h.0) ∙ h.1)) in
      ground (arith, other, (starts_with_iff s t).1 shorter)
  | inr no_start ↦ no_start
]

rpartition-none :
    (needle : String) (c : Char) (s : String)
    → rpartition needle s ≡ none
    → starts_with (c ∷ s) needle ≡ false
    → rpartition needle (c ∷ s) ≡ none
unfolding rpartition
rpartition-none needle c s n other = rw (n, other) refl

rpartition-append :
    (needle part s head tail : String)
    → rpartition needle s ≡ some (head, tail)
    → rpartition needle (String.◌++◌ part s) ≡ some (String.◌++◌ part head, tail)
unfolding rpartition
rpartition-append needle [] s head tail e = rw (nil-append s, nil-append head) e
rpartition-append needle (c ∷ part) s head tail e =
    rw (cons-append c part s, cons-append c part head, rpartition-append needle part s head tail e)
      refl

-- A digit is no underscore, no S and no blank.
no_marker : (s : String) → AreDigits s → rpartition "__SIZE__" (String.◌++◌ s "\n") ≡ none
unfolding rpartition
no_marker [] h = refl
no_marker (c ∷ s) h = rw (cons-append c s "\n") (
    rpartition-none "__SIZE__" c (String.◌++◌ s "\n") (no_marker s h.2)
      (starts-head c "_" (String.◌++◌ s "\n") "_SIZE__" (λ e. omega (arith, h.0, h.1, e))))

rpartition-other :
    (c : Char) (s : String)
    → code c ≢ b'_'
    → rpartition "__SIZE__" s ≡ none
    → rpartition "__SIZE__" (c ∷ s) ≡ none
rpartition-other c s differ n =
    rpartition-none "__SIZE__" c s n (starts-head c "_" s "_SIZE__" differ)

-- The marker is no suffix of itself that goes on with what follows it.
inner_none :
    (c : Char) (s : String)
    → code c ≢ b'_'
    → code c ≢ b'S'
    → rpartition "__SIZE__" (c ∷ s) ≡ none
    → rpartition "__SIZE__" ("_" ∷ "S" ∷ "I" ∷ "Z" ∷ "E" ∷ "_" ∷ "_" ∷ c ∷ s) ≡ none
inner_none c s no_line no_s n =
    let one =
      rpartition-none "__SIZE__" "_" (c ∷ s) n
        (starts-tail "_" (c ∷ s) "_SIZE__" (starts-head c "_" s "SIZE__" no_line)) in
    let two = rpartition-none "__SIZE__" "_" ("_" ∷ c ∷ s) one (
      starts-tail "_" ("_" ∷ c ∷ s) "_SIZE__"
        (starts-tail "_" (c ∷ s) "SIZE__" (starts-head c "S" s "IZE__" no_s))) in
    let word = rpartition-other "S" _ (omega arith) (
      rpartition-other "I" _ (omega arith)
        (rpartition-other "Z" _ (omega arith) (rpartition-other "E" _ (omega arith) two))) in
    rpartition-none "__SIZE__" "_" _ word
      (starts-tail "_" _ "_SIZE__" (starts-head "S" "_" _ "SIZE__" (omega arith)))

marker_cons :
    (s : String) → String.◌++◌ "__SIZE__" s ≡ "_" ∷ "_" ∷ "S" ∷ "I" ∷ "Z" ∷ "E" ∷ "_" ∷ "_" ∷ s
marker_cons s = rw (
  cons-append "_" "_SIZE__" s,
  cons-append "_" "SIZE__" s,
  cons-append "S" "IZE__" s,
  cons-append "I" "ZE__" s,
  cons-append "Z" "E__" s,
  cons-append "E" "__" s,
  cons-append "_" "_" s,
  cons-append "_" "" s,
  nil-append s,
)

marker_found :
    (c : Char) (s : String)
    → code c ≢ b'_'
    → code c ≢ b'S'
    → rpartition "__SIZE__" (c ∷ s) ≡ none
    → rpartition "__SIZE__" (String.◌++◌ "__SIZE__" (c ∷ s)) ≡ some ("", c ∷ s)
unfolding rpartition slice_from
marker_found c s no_line no_s n =
    let here : starts_with ("_" ∷ "_" ∷ "S" ∷ "I" ∷ "Z" ∷ "E" ∷ "_" ∷ "_" ∷ c ∷ s) "__SIZE__"
        ≡ true =
      ap (λ t. starts_with t "__SIZE__") (sym (marker_cons (c ∷ s)))
      ∙ starts_with-append "__SIZE__" (c ∷ s) in
    ap (rpartition "__SIZE__") (marker_cons (c ∷ s)) ∙ rw (inner_none c s no_line no_s n, here) refl

size_found :
    (size : String)
    → AreDigits size
    → rpartition "__SIZE__" (String.◌++◌ "__SIZE__" (String.◌++◌ size "\n"))
      ≡ some ("", String.◌++◌ size "\n")
unfolding rpartition slice_from
size_found [] h = refl
size_found (c ∷ s) h = rw (cons-append c s "\n") (
    marker_found c (String.◌++◌ s "\n") (λ e. omega (arith, h.0, h.1, e))
      (λ e. omega (arith, h.0, h.1, e))
      (ap (rpartition "__SIZE__") (sym (cons-append c s "\n")) ∙ no_marker (c ∷ s) h))

printed_parts :
    (part size : String)
    → AreDigits size
    → rpartition "__SIZE__" (printed part size)
      ≡ some (String.◌++◌ part "\n", String.◌++◌ size "\n")
unfolding rpartition
printed_parts part size h =
    rpartition-append "__SIZE__" part (String.◌++◌ "\n__SIZE__" (String.◌++◌ size "\n")) "\n"
      (String.◌++◌ size "\n")
      (rw (cons-append "\n" "__SIZE__" (String.◌++◌ size "\n"), size_found size h) refl)

rstrip_newlines-append : (s : String) → rstrip_newlines (String.◌++◌ s "\n") ≡ rstrip_newlines s
unfolding rstrip_newlines
rstrip_newlines-append [] = refl
rstrip_newlines-append (c ∷ s) = rw (cons-append c s "\n", rstrip_newlines-append s) refl

digit_no_space : (c : Char) → b'0' ≤ code c → code c ≤ b'9' → is_space c ≡ false
digit_no_space c low high = ground (arith, low, high)

rstrip-digits : (s : String) → AreDigits s → rstrip (String.◌++◌ s "\n") ≡ s
unfolding rstrip
rstrip-digits [] h = refl
rstrip-digits (c ∷ []) h = rw (cons-append c "" "\n", digit_no_space c h.0 h.1) refl
rstrip-digits (c ∷ d ∷ s) h = rw (cons-append c (d ∷ s) "\n", rstrip-digits (d ∷ s) h.2) refl

strip-digits : (s : String) → AreDigits s → strip (String.◌++◌ s "\n") ≡ s
unfolding strip lstrip
strip-digits [] h = unfold rstrip in refl
strip-digits (c ∷ s) h =
    rw (cons-append c s "\n", digit_no_space c h.0 h.1)
      (ap rstrip (sym (cons-append c s "\n")) ∙ rstrip-digits (c ∷ s) h)

-- The reply that the part and the size of a log stand for.
abbrev pub reply_for : OutputCall → String → ℕ → JobOutput
reply_for call part total =
    let content = rstrip_newlines part in
    record {
      returned_bytes = encoded_length content;
      total_bytes = total;
      next_offset = if call.tail then total else min (call.offset + encoded_length content) total;
      content = content;
    }

-- Whatever the part of a log that the script printed holds, the marker of the size too, it is read back without the
-- newlines at its end, with the size that was printed; the next offset is the size for a tail, and else what was
-- read is added to the offset, up to the size.
pub read_output_lem :
    (call : OutputCall) (part size : String) (total : ℕ)
    → AreDigits size
    → digits_from 0 size ≡ some total
    → read_output call (printed part size) ≡ reply_for call part total
unfolding read_output
read_output_lem call part size total h e =
    rw (printed_parts part size h, rstrip_newlines-append part, strip-digits size h, e)
