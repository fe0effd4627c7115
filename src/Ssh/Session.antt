-- ===== src/Ssh/Session.antt =====
-- `ShellSession.run` of src/vpsmcp/ssh/session.py: the output of a command, up to a marker that the shell
-- prints after it. Bytes are numbers.
pub mod Collecting
use Prim.Native.String
use Prim.Native.String.{[], ◌∷◌}
use Prim.Native.Char.{Char, code}
use mathlib.Core.List
use text.Mathlib.Text.{starts_with}
use letkite_lite.Prelude.{
  ℕ, zero, suc, ◌+◌, ◌-◌, ◌*◌, Bool, true, false, ◌&&◌, ◌||◌, String, ◌==◌, Option, none, some,
  List, ◌++◌, length, drop, eqb, leb, ltb, if◌then◌else◌,
}
use letkite_lite.Prelude.Text.{partition, strip, slice_from}
use letkite_lite.Ssh.Runner.{ExitCode, exited, minus_one}

-- What one turn of the reading loop meets.
pub data Read : Type 0 where
  -- the deadline has passed
  expired : Read
  -- the read timed out before it
  waited : Read
  -- a chunk, empty at the end of the stream
  got : List ℕ → Read

pub data Collected : Type 0 where
  found : List ℕ → Bool → Collected
  deadline_passed : Collected
  shell_exited : Collected

abbrev begins_with : List ℕ → List ℕ → Bool
begins_with List.[] s = true
begins_with (List.◌∷◌ n ns) List.[] = false
begins_with (List.◌∷◌ n ns) (List.◌∷◌ c s) = eqb n c && begins_with ns s

-- needle in buf
unfoldable pub contains : List ℕ → List ℕ → Bool
contains needle List.[] = begins_with needle List.[]
contains needle (List.◌∷◌ c s) = begins_with needle (List.◌∷◌ c s) || contains needle s

-- del buf[: len(buf) - max_bytes * 2], once it is longer than four times the limit
unfoldable pub trim : ℕ → List ℕ → List ℕ
trim max_bytes buf =
    if ltb (max_bytes * 4) (length buf) then drop (length buf - max_bytes * 2) buf else buf

-- The loop; a list that ends is followed by the deadline.
unfoldable pub collect : List ℕ → ℕ → List ℕ → Bool → List Read → Collected
unfolding contains trim
collect needle max_bytes buf truncated List.[] = deadline_passed
collect needle max_bytes buf truncated (List.◌∷◌ expired reads) = deadline_passed
collect needle max_bytes buf truncated (List.◌∷◌ waited reads) =
    collect needle max_bytes buf truncated reads
collect needle max_bytes buf truncated (List.◌∷◌ (got List.[]) reads) = shell_exited
collect needle max_bytes buf truncated (List.◌∷◌ (got (List.◌∷◌ b bs)) reads) =
    let all = buf ++ List.◌∷◌ b bs in
    let rest =
      collect needle max_bytes (trim max_bytes all) (truncated || ltb (max_bytes * 4) (length all))
        reads in
    if contains needle all then found all truncated else rest

abbrev pub text_length : String → ℕ
text_length [] = 0
text_length (c ∷ s) = suc (text_length s)

-- text.rpartition(needle), without the middle: none if the needle is not there
abbrev pub split_here : String → Char → String → Option (String × String) → Option (String × String)
split_here needle c s (some (head, tail)) = some (c ∷ head, tail)
split_here needle c s none =
    if starts_with (c ∷ s) needle then some ("", slice_from (text_length needle) (c ∷ s)) else none

unfoldable pub rpartition : String → String → Option (String × String)
rpartition needle [] = none
rpartition needle (c ∷ s) = split_here needle c s (rpartition needle s)

-- int(s), for the text that `printf %s` makes of a status; what else `int` takes, a sign or white space, is
-- not modelled.
abbrev pub digits_from : ℕ → String → Option ℕ
digits_from n [] = some n
digits_from n (c ∷ s) =
    let rest = digits_from (n * 10 + (code c - b'0')) s in
    if leb b'0' (code c) && leb (code c) b'9' then rest else none

abbrev status_or : Option ℕ → ExitCode
status_or none = minus_one
status_or (some n) = exited n

unfoldable pub status_of : String → ExitCode
status_of s = if s == "" then minus_one else status_or (digits_from 0 s)

-- head.rstrip("\n")
abbrev pub cons_unless_newline : Char → String → String
cons_unless_newline c [] = if eqb (code c) 10 then [] else c ∷ []
cons_unless_newline c (d ∷ s) = c ∷ d ∷ s

unfoldable pub rstrip_newlines : String → String
rstrip_newlines [] = []
rstrip_newlines (c ∷ s) = cons_unless_newline c (rstrip_newlines s)

pub record Reply : Type 0 where
  pub exit_code : ExitCode
  pub output : String
  pub cwd : String
  pub truncated : Bool

pub data Outcome : Type 0 where
  replied : Reply → Outcome
  is_closed : Outcome
  timed_out : Outcome
  exited_early : Outcome

-- The last characters of the output, if it has more than the limit.
abbrev reply_of : ℕ → Bool → String × String → Outcome
reply_of max_bytes truncated (head, tail) =
    let output = rstrip_newlines head in
    let (rc, cwd) = partition b':' (strip tail) in
    replied record {
      exit_code = status_of rc;
      output =
          if ltb max_bytes (text_length output)
          then slice_from (text_length output - max_bytes) output
          else output;
      cwd = strip cwd;
      truncated = truncated || ltb max_bytes (text_length output);
    }

abbrev or_whole : String → Option (String × String) → String × String
or_whole text none = ("", text)
or_whole text (some p) = p

-- The answer, and whether the session is closed after it.
abbrev answer : (List ℕ → String) → String → ℕ → Collected → Outcome × Bool
answer decode marker max_bytes deadline_passed = (timed_out, true)
answer decode marker max_bytes shell_exited = (exited_early, true)
answer decode marker max_bytes (found buf truncated) =
    let text = decode buf in
    (reply_of max_bytes truncated (or_whole text (rpartition (String.◌++◌ marker ":") text)), false)

abbrev code_list : String → List ℕ
code_list [] = List.[]
code_list (c ∷ s) = List.◌∷◌ (code c) (code_list s)

-- `marker` is the sentinel with its random suffix, in ASCII; `decode` is bytes.decode("utf-8", "replace").
unfoldable pub run : (List ℕ → String) → String → ℕ → Bool → List Read → Outcome × Bool
unfolding collect rpartition status_of rstrip_newlines
run decode marker max_bytes closed reads =
    if closed
    then (is_closed, true)
    else answer decode marker max_bytes
        (collect (code_list (String.◌++◌ marker ":")) max_bytes List.[] false reads)
