-- ===== src/Ssh/Jobs/Gapless.antt =====
-- Reading a job's output part by part, as src/vpsmcp/ssh/jobs.py does with `next_offset`.

use Prim.Native.String.{[], ◌∷◌}
use Prim.Native.Char.{Char, code}
use letkite_lite.Prelude.{
  ℕ, zero, suc, ◌+◌, ◌-◌, ◌≤◌, true, false, String, ◌≡◌, refl, ap, ◌∙◌, some, eqb, leb, Bool-cases,
  inl, inr, arith,
}
use letkite_lite.Prelude.Text.{slice_to, slice_from, is_ascii}
use letkite_lite.Ssh.Session.{text_length, digits_from, rstrip_newlines, cons_unless_newline}
use letkite_lite.Ssh.Jobs.{OutputCall, read_output, encoded_length}
use letkite_lite.Ssh.Jobs.Reading.{AreDigits, printed, reply_for, read_output_lem}

-- What is left without the newlines at the end is the beginning of the text.
cons-slice :
    (c : Char) (r s : String)
    → r ≡ slice_to (text_length r) s
    → cons_unless_newline c r ≡ slice_to (text_length (cons_unless_newline c r)) (c ∷ s)
unfolding slice_to
cons-slice c [] s e = elim (Bool-cases (eqb (code c) 10)) [
  | inl newline ↦ rw newline refl
  | inr other ↦ rw other refl
]
cons-slice c (d ∷ r) s e = ap (λ t. c ∷ t) e

rstrip_newlines-slice :
    (s : String) → rstrip_newlines s ≡ slice_to (text_length (rstrip_newlines s)) s
unfolding rstrip_newlines
rstrip_newlines-slice [] = unfold slice_to in refl
rstrip_newlines-slice (c ∷ s) = cons-slice c (rstrip_newlines s) s (rstrip_newlines-slice s)

cons-length :
    (c : Char) (r : String) (n : ℕ)
    → text_length r ≤ n
    → text_length (cons_unless_newline c r) ≤ suc n
cons-length c [] n le = elim (Bool-cases (eqb (code c) 10)) [
  | inl newline ↦ rw newline (omega arith)
  | inr other ↦ rw other (omega arith)
]
cons-length c (d ∷ r) n le = omega (arith, le)

rstrip_newlines-length : (s : String) → text_length (rstrip_newlines s) ≤ text_length s
unfolding rstrip_newlines
rstrip_newlines-length [] = omega arith
rstrip_newlines-length (c ∷ s) =
    cons-length c (rstrip_newlines s) (text_length s) (rstrip_newlines-length s)

slice_to-length :
    (n : ℕ) (s : String)
    → (text_length (slice_to n s) ≤ n) × (text_length (slice_to n s) ≤ text_length s)
unfolding slice_to
slice_to-length zero s = (omega arith, omega arith)
slice_to-length (suc n) [] = (omega arith, omega arith)
slice_to-length (suc n) (c ∷ s) =
    let (one, two) = slice_to-length n s in (omega (arith, one), omega (arith, two))

slice_from-length : (n : ℕ) (s : String) → text_length (slice_from n s) ≡ text_length s - n
unfolding slice_from
slice_from-length zero s = omega arith
slice_from-length (suc n) [] = omega arith
slice_from-length (suc n) (c ∷ s) = omega (arith, slice_from-length n s)

slice_to-slice_to : (k n : ℕ) (s : String) → k ≤ n → slice_to k (slice_to n s) ≡ slice_to k s
unfolding slice_to
slice_to-slice_to zero n s le = refl
slice_to-slice_to (suc k) zero s le = ground (arith, le)
slice_to-slice_to (suc k) (suc n) [] le = refl
slice_to-slice_to (suc k) (suc n) (c ∷ s) le =
    ap (λ t. c ∷ t) (slice_to-slice_to k n s (omega (arith, le)))

slice_to-ascii : (n : ℕ) (s : String) → is_ascii s ≡ true → is_ascii (slice_to n s) ≡ true
unfolding slice_to is_ascii
slice_to-ascii zero s h = refl
slice_to-ascii (suc n) [] h = refl
slice_to-ascii (suc n) (c ∷ s) h = elim (Bool-cases (leb (code c) 127)) [
  | inl small ↦ rw small (slice_to-ascii n s (rw small at h))
  | inr large ↦ let no : false ≡ true = (rw large at h) in ground (arith, no)
]

slice_from-ascii : (n : ℕ) (s : String) → is_ascii s ≡ true → is_ascii (slice_from n s) ≡ true
unfolding slice_from is_ascii
slice_from-ascii zero s h = h
slice_from-ascii (suc n) [] h = refl
slice_from-ascii (suc n) (c ∷ s) h = elim (Bool-cases (leb (code c) 127)) [
  | inl small ↦ slice_from-ascii n s (rw small at h)
  | inr large ↦ let no : false ≡ true = (rw large at h) in ground (arith, no)
]

encoded_length-ascii : (s : String) → is_ascii s ≡ true → encoded_length s ≡ text_length s
unfolding encoded_length is_ascii
encoded_length-ascii [] h = refl
encoded_length-ascii (c ∷ s) h = elim (Bool-cases (leb (code c) 127)) [
  | inl small ↦ rw (small, encoded_length-ascii s (rw small at h)) (omega arith)
  | inr large ↦ let no : false ≡ true = (rw large at h) in ground (arith, no)
]

-- The part of a log that `tail -c +k | head -c max_bytes` prints.
abbrev pub part_of : OutputCall → String → String
part_of call log = slice_to call.max_bytes (slice_from call.offset log)

module _ (call : OutputCall) (log : String) where
  abbrev kept : String
  kept = rstrip_newlines (part_of call log)

  kept-length :
      (text_length kept ≤ call.max_bytes) × (text_length kept ≤ text_length log - call.offset)
  kept-length =
      let less = rstrip_newlines-length (part_of call log) in
      let (one, two) = slice_to-length call.max_bytes (slice_from call.offset log) in
      let whole = slice_from-length call.offset log in
      (omega (arith, less, one), omega (arith, less, two, whole))

  kept-slice : kept ≡ slice_to (text_length kept) (slice_from call.offset log)
  kept-slice =
      rstrip_newlines-slice (part_of call log)
      ∙ slice_to-slice_to (text_length kept) call.max_bytes (slice_from call.offset log)
          kept-length.0

  kept-encoded : is_ascii log ≡ true → encoded_length kept ≡ text_length kept
  kept-encoded ascii = encoded_length-ascii kept (
      ap is_ascii kept-slice
      ∙ slice_to-ascii (text_length kept) (slice_from call.offset log)
          (slice_from-ascii call.offset log ascii))

  next-kept :
      is_ascii log ≡ true
      → call.tail ≡ false
      → call.offset ≤ text_length log
      → (reply_for call (part_of call log) (text_length log)).next_offset
        ≡ call.offset + text_length kept
  next-kept ascii going inside =
      rw (going, kept-encoded ascii) (omega (arith, kept-length.1, inside))

  -- A log of ASCII characters, each of them one byte, and an offset in it, from which the script prints the part that is
  -- asked for: the content is the log's text from the offset up to next_offset, so that a call with that offset goes on
  -- where this one ends, and nothing is left out or given twice.
  pub read_output-gapless :
      (size : String)
      → is_ascii log ≡ true
      → call.tail ≡ false
      → call.offset ≤ text_length log
      → AreDigits size
      → digits_from 0 size ≡ some (text_length log)
      → (let r = read_output call (printed (part_of call log) size) in
          (r.next_offset ≡ call.offset + text_length r.content)
          × (r.content ≡ slice_to (text_length r.content) (slice_from call.offset log)))
  read_output-gapless size ascii going inside digits number =
      rw (read_output_lem call (part_of call log) size (text_length log) digits number)
        (next-kept ascii going inside, kept-slice)
