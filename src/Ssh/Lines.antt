-- ===== src/Ssh/Lines.antt =====
-- `_capped_lines` of src/vpsmcp/ssh/logs.py: lines from a stream of chunks, each at most `max_line`
-- characters. A text is the list of its code points. An empty chunk, or the end of the list, is the
-- end of the stream. The inner loop `while True` takes the lines that `buf` holds one by one.
pub mod Law
use letkite_lite.Prelude.{
  ℕ, zero, suc, ◌+◌, ◌-◌, ◌≤◌, ◌<◌, Bool, true, false, not, ◌&&◌, ◌≡◌, refl, ap, ◌∙◌, sym, List, [],
  ◌∷◌, ◌++◌, map, arith, length, take, length-append, ltb, eqb, if◌then◌else◌, Bool-cases, inl, inr,
  String, ltb→lt,
}
use Prim.Native.Char.{code}
use Prim.Native.String
use mathlib.Core.List.{append_assoc, append-nil, map-append}

abbrev pub Text : Type 0
Text = List ℕ

abbrev codes : String → Text
codes String.[] = []
codes (String.◌∷◌ c s) = code c ∷ codes s

-- _TRUNC
unfoldable pub trunc : Text
trunc = codes " …[vpsmcp: line truncated]"

-- line[:max_line] + (_TRUNC if len(line) > max_line else "")
unfoldable pub cap_line : ℕ → Text → Text
cap_line max line = take max line ++ (if ltb max (length line) then trunc else [])

abbrev pub step_line : ℕ → List Text × Text → List Text × Text
step_line c ([], rem) = if eqb c 10 then ([] ∷ [], rem) else ([], c ∷ rem)
step_line c (l ∷ ls, rem) = if eqb c 10 then ([] ∷ l ∷ ls, rem) else ((c ∷ l) ∷ ls, rem)

-- The lines that end in the text, and what follows the last newline.
unfoldable pub split_lines : Text → List Text × Text
split_lines [] = ([], [])
split_lines (c ∷ s) = step_line c (split_lines s)

-- The lines of the buffer, the first dropped if it ends a line that was cut before.
abbrev pub emit : ℕ → Bool → List Text → List Text
emit max skipping [] = []
emit max true (l ∷ ls) = map (cap_line max) ls
emit max false (l ∷ ls) = map (cap_line max) (l ∷ ls)

abbrev pub still_skipping : Bool → List Text → Bool
still_skipping skipping [] = skipping
still_skipping skipping (l ∷ ls) = false

-- The lines that a chunk brings, and the buffer and the flag after it.
pub record Round : Type 0 where
  pub out : List Text
  pub buf : Text
  pub skipping : Bool

abbrev pub overflow : ℕ → Bool → List Text → Text → Round
overflow max skipping out rem =
    if ltb max (length rem)
    then record {
      out = out ++ (if skipping then [] else (take max rem ++ trunc) ∷ []);
      buf = [];
      skipping = true;
    }
    else record { out = out; buf = rem; skipping = skipping }

unfoldable pub round : ℕ → Text → Bool → Text → Round
unfolding split_lines
round max buf skipping chunk =
    let (ls, rem) = split_lines (buf ++ chunk) in
    overflow max (still_skipping skipping ls) (emit max skipping ls) rem

-- What is left at the end of the stream.
abbrev pub last_line : ℕ → Bool → Text → List Text
last_line max skipping [] = []
last_line max true (c ∷ s) = []
last_line max false (c ∷ s) = cap_line max (c ∷ s) ∷ []

unfoldable pub lines_from : ℕ → Text → Bool → List Text → List Text
unfolding round
lines_from max buf skipping [] = last_line max skipping buf
lines_from max buf skipping ([] ∷ chunks) = last_line max skipping buf
lines_from max buf skipping ((c ∷ s) ∷ chunks) =
    let r = round max buf skipping (c ∷ s) in r.out ++ lines_from max r.buf r.skipping chunks

unfoldable pub capped_lines : ℕ → List Text → List Text
unfolding lines_from
capped_lines max chunks = lines_from max [] false chunks
