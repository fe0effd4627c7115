-- ===== src/Prelude/Text/Words.antt =====
-- `s.split()`, `" ".join(ws)`, `s.split(sep)`, `s.strip()`, `s[:n]`, `s.lower()` and LIKE.
use Prim.Native.Nat.{ℕ, zero, suc, ◌+◌, ◌-◌}
use Prim.Native.Char.{Char, code}
use Prim.Native.String
use Prim.Native.String.{String, [], ◌∷◌, char_at}
use mathlib.Core.Path.{◌≡◌, refl, ap, ◌∙◌}
use mathlib.Core.Logic.{◌≢◌, inl, inr}
use mathlib.Core.Bool.{Bool, true, false, ◌||◌, ◌&&◌}
use mathlib.Core.Option.{Option, none, some}
use mathlib.Core.List.{List}
use text.Mathlib.Text.{◌==◌, starts_with}
use text.Mathlib.TextLemmas.{cons≢nil, nil-append, cons-append, append-nil}
use letkite_lite.Prelude.Tests.{eqb, leb, if◌then◌else◌, Bool-cases}
use letkite_lite.Prelude.Lists.{All}

-- The white space that `str.split()` and `str.strip()` take, in ASCII.
abbrev pub is_space : Char → Bool
is_space c = (leb 9 (code c) && leb (code c) 13) || (leb 28 (code c) && leb (code c) 32)

-- A word that has ended is kept unless it is empty.
abbrev pub push_word : String → List String → List String
push_word [] ws = ws
push_word (c ∷ w) ws = List.◌∷◌ (c ∷ w) ws

abbrev step_word : Char → String × List String → String × List String
step_word c (w, ws) = if is_space c then ([], push_word w ws) else (c ∷ w, ws)

-- The word that the text begins with, and the words after it.
unfoldable pub split_words : String → String × List String
split_words [] = ([], List.[])
split_words (c ∷ s) = step_word c (split_words s)

-- s.split()
unfoldable pub words : String → List String
unfolding split_words
words s = let (w, ws) = split_words s in push_word w ws

-- " ".join(ws)
unfoldable pub unwords : List String → String
unwords List.[] = []
unwords (List.◌∷◌ w List.[]) = w
unwords (List.◌∷◌ w (List.◌∷◌ v ws)) = String.◌++◌ w (" " ∷ (unwords (List.◌∷◌ v ws)))

-- s.split(sep) for a separator of one character.
abbrev pub step_field : ℕ → Char → List String → List String
step_field sep c List.[] = List.[]
step_field sep c (List.◌∷◌ w ws) =
    if eqb (code c) sep then List.◌∷◌ [] (List.◌∷◌ w ws) else List.◌∷◌ (c ∷ w) ws

unfoldable pub split_on : ℕ → String → List String
split_on sep [] = List.◌∷◌ [] List.[]
split_on sep (c ∷ s) = step_field sep c (split_on sep s)

unfoldable pub lstrip : String → String
lstrip [] = []
lstrip (c ∷ s) = let rest = lstrip s in if is_space c then rest else c ∷ s

abbrev cons_stripped : Char → String → String
cons_stripped c [] = if is_space c then [] else c ∷ []
cons_stripped c (d ∷ s) = c ∷ d ∷ s

unfoldable pub rstrip : String → String
rstrip [] = []
rstrip (c ∷ s) = cons_stripped c (rstrip s)

unfoldable pub strip : String → String
unfolding lstrip rstrip
strip s = rstrip (lstrip s)

-- s[:n], in characters
unfoldable pub slice_to : ℕ → String → String
slice_to zero s = []
slice_to (suc n) [] = []
slice_to (suc n) (c ∷ s) = c ∷ slice_to n s

abbrev lower_code : ℕ → ℕ
lower_code c = if leb 65 c && leb c 90 then c + 32 else c

-- LIKE: `%` stands for any text, `_` for any one character; ASCII letters match in either case.
abbrev any_suffix : (String → Bool) → String → Bool
any_suffix k [] = k []
any_suffix k (c ∷ s) = k (c ∷ s) || any_suffix k s

abbrev like_one : Char → (String → Bool) → String → Bool
like_one p k [] = false
like_one p k (c ∷ s) = (eqb (code p) b'_' || eqb (lower_code (code p)) (lower_code (code c))) && k s

unfoldable pub like : String → String → Bool
like [] [] = true
like [] (c ∷ s) = false
like (p ∷ ps) s = if eqb (code p) b'%' then any_suffix (like ps) s else like_one p (like ps) s

-- A text that `split()` can return: not empty, and without white space.
abbrev pub NoSpace : String → Type 0
NoSpace [] = Unit {0}
NoSpace (c ∷ s) = (is_space c ≡ false) × NoSpace s

abbrev pub IsWord : String → Type 0
IsWord w = (w ≢ []) × NoSpace w

push_word-IsWord :
    (w : String) (ws : List String) → NoSpace w → All IsWord ws → All IsWord (push_word w ws)
push_word-IsWord [] ws n h = h
push_word-IsWord (c ∷ w) ws n h = ((cons≢nil {x = c} {xs = w}, n), h)

step_word-IsWord :
    (c : Char) (w : String) (ws : List String)
    → NoSpace w
    → All IsWord ws
    → NoSpace (step_word c (w, ws)).0 × All IsWord (step_word c (w, ws)).1
step_word-IsWord c w ws n h = elim (Bool-cases (is_space c)) [
  | inl sp ↦ rw sp (tt, push_word-IsWord w ws n h)
  | inr ns ↦ rw ns ((ns, n), h)
]

split_words-IsWord : (s : String) → NoSpace (split_words s).0 × All IsWord (split_words s).1
unfolding split_words
split_words-IsWord [] = (tt, tt)
split_words-IsWord (c ∷ s) =
    let h = split_words-IsWord s in step_word-IsWord c (split_words s).0 (split_words s).1 h.0 h.1

pub words-IsWord : (s : String) → All IsWord (words s)
unfolding words
words-IsWord s =
    let h = split_words-IsWord s in push_word-IsWord (split_words s).0 (split_words s).1 h.0 h.1

split_words-cons :
    (c : Char) (s : String)
    → is_space c ≡ false
    → split_words (c ∷ s) ≡ (c ∷ (split_words s).0, (split_words s).1)
unfolding split_words
split_words-cons c s h = rw h refl

split_words-append :
    (w s : String)
    → NoSpace w
    → split_words (String.◌++◌ w s) ≡ (String.◌++◌ w (split_words s).0, (split_words s).1)
split_words-append [] s n = rw (nil-append s, nil-append (split_words s).0)
split_words-append (c ∷ w) s n = rw (
  cons-append c w s,
  cons-append c w (split_words s).0,
  split_words-cons c (String.◌++◌ w s) n.0,
  split_words-append w s n.1,
)

split_words-space : (s : String) → split_words (" " ∷ s) ≡ ([], words s)
unfolding split_words words
split_words-space s = refl

push_word-eq-cons : (w : String) (ws : List String) → w ≢ [] → push_word w ws ≡ List.◌∷◌ w ws
push_word-eq-cons [] ws h = absurd (h refl)
push_word-eq-cons (c ∷ w) ws h = refl

words_lem : (s : String) → words s ≡ push_word (split_words s).0 (split_words s).1
unfolding words
words_lem s = refl

words-join : (w s : String) → IsWord w → words (String.◌++◌ w (" " ∷ s)) ≡ List.◌∷◌ w (words s)
words-join w s h =
    rw
      (
        words_lem (String.◌++◌ w (" " ∷ s)),
        split_words-append w (" " ∷ s) h.1,
        split_words-space s,
        append-nil w,
      )
      (push_word-eq-cons w (words s) h.0)

split_words_single : (w : String) → NoSpace w → split_words w ≡ (w, List.[])
split_words_single [] n = unfold split_words in refl
split_words_single (c ∷ w) n = rw (split_words-cons c w n.0, split_words_single w n.1)

words_single : (w : String) → IsWord w → words w ≡ List.◌∷◌ w List.[]
words_single w h = rw (words_lem w, split_words_single w h.1) (push_word-eq-cons w List.[] h.0)

-- Splitting undoes joining, for texts that `split()` can return.
pub words-unwords : (ws : List String) → All IsWord ws → words (unwords ws) ≡ ws
unfolding unwords
words-unwords List.[] h = unfold words split_words in refl
words-unwords (List.◌∷◌ w List.[]) h = words_single w h.0
words-unwords (List.◌∷◌ w (List.◌∷◌ v ws)) h =
    words-join w (unwords (List.◌∷◌ v ws)) h.0 ∙ ap (List.◌∷◌ w) (words-unwords (List.◌∷◌ v ws) h.1)

-- s.rstrip("/")
abbrev cons_unless_slash : Char → String → String
cons_unless_slash c [] = if eqb (code c) b'/' then [] else c ∷ []
cons_unless_slash c (d ∷ s) = c ∷ d ∷ s

unfoldable pub rstrip_slash : String → String
rstrip_slash [] = []
rstrip_slash (c ∷ s) = cons_unless_slash c (rstrip_slash s)

-- `needle in s`
unfoldable pub has_infix : String → String → Bool
has_infix needle s = any_suffix (λ t. starts_with t needle) s

-- The texts before and after the first separator; all of it and "" if there is none.
abbrev step_partition : ℕ → Char → String → String × String → String × String
step_partition sep c s (a, b) = if eqb (code c) sep then ([], s) else (c ∷ a, b)

unfoldable pub partition : ℕ → String → String × String
partition sep [] = ([], [])
partition sep (c ∷ s) = step_partition sep c s (partition sep s)

-- s.lower() == t, for a lower-case ASCII text t
unfoldable pub lower_eq : String → String → Bool
lower_eq [] [] = true
lower_eq [] (d ∷ t) = false
lower_eq (c ∷ s) [] = false
lower_eq (c ∷ s) (d ∷ t) = eqb (lower_code (code c)) (code d) && lower_eq s t

-- s[n:]
unfoldable pub slice_from : ℕ → String → String
slice_from zero s = s
slice_from (suc n) [] = []
slice_from (suc n) (c ∷ s) = slice_from n s

unfoldable pub is_ascii : String → Bool
is_ascii [] = true
is_ascii (c ∷ s) = leb (code c) 127 && is_ascii s

-- hmac.compare_digest on texts: none is the TypeError that a text outside ASCII raises.
unfoldable pub compare_digest : String → String → Option Bool
unfolding is_ascii
compare_digest s t = if is_ascii s && is_ascii t then some (s == t) else none

abbrev lower_char : Char → Char
lower_char c =
    if leb 65 (code c) && leb (code c) 90
    then char_at "abcdefghijklmnopqrstuvwxyz" (code c - 65)
    else c

-- s.lower(), on ASCII text
unfoldable pub lower : String → String
lower [] = []
lower (c ∷ s) = lower_char c ∷ lower s
