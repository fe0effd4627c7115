-- ===== src/Ssh/Runner/Quoting.antt =====
-- What a POSIX shell reads back from the scripts of src/vpsmcp/ssh/runner.py: an independent reader of a
-- command line into its words, by the quoting rules of the shell.
pub mod Scripts
use Prim.Native.String
use Prim.Native.String.{[], ◌∷◌}
use Prim.Native.Char.{Char, code}
use mathlib.Core.List
use text.Mathlib.TextEquality.{codes_equal}
use text.Mathlib.TextLemmas.{cons≢nil, nil-append, cons-append, append-nil, append_assoc}
use letkite_lite.Prelude.{
  ℕ, Bool, true, false, ◌||◌, ◌&&◌, not, String, ◌==◌, ◌≡◌, refl, sym, ap, ==-false, ◌∙◌, Option,
  none, some, List, eqb, if◌then◌else◌, arith, Bool-cases, inl, inr, ◌++◌,
}
use letkite_lite.Ssh.Runner.{
  quote, build_script, is_safe, all_safe, escape_quotes, join_lines, exports, change_dir,
}

-- Where the reader stands: between words, in a word, in single or in double quotes.
pub data Mode : Type 0 where
  blank plain single double : Mode

abbrev is_blank : ℕ → Bool
is_blank c = eqb c b' ' || eqb c 9

-- The characters that mean something to a shell when they stand bare: $ ` \ * ? [ ] ~ ! { } # ; & | < > ( )
-- and the line break.
abbrev is_active : ℕ → Bool
is_active c =
    eqb c 36
    || eqb c 96
    || eqb c 92
    || eqb c 42
    || eqb c 63
    || eqb c 91
    || eqb c 93
    || eqb c 126
    || eqb c 33
    || eqb c 123
    || eqb c 125
    || eqb c 35
    || eqb c 59
    || eqb c 38
    || eqb c 124
    || eqb c 60
    || eqb c 62
    || eqb c 40
    || eqb c 41
    || eqb c 10

-- The characters that keep a meaning in double quotes: $ ` \ !
abbrev is_active_in_double : ℕ → Bool
is_active_in_double c = eqb c 36 || eqb c 96 || eqb c 92 || eqb c 33

-- One more character in front of the word that is read.
abbrev grow : Char → Option (List String) → Option (List String)
grow c (some (List.◌∷◌ w ws)) = some (List.◌∷◌ (c ∷ w) ws)
grow c (some List.[]) = none
grow c none = none

abbrev end_word : Option (List String) → Option (List String)
end_word none = none
end_word (some ws) = some (List.◌∷◌ "" ws)

-- The words of a line; none if it holds more than words: an expansion, an operator, an open quote. In a word, the
-- first item is what is left of it.
unfoldable pub read_words : Mode → String → Option (List String)
read_words blank [] = some List.[]
read_words plain [] = some (List.◌∷◌ "" List.[])
read_words single [] = none
read_words double [] = none
read_words single (c ∷ s) =
    let inside = read_words single s in
    let outside = read_words plain s in if eqb (code c) 39 then outside else grow c inside
read_words double (c ∷ s) =
    let inside = read_words double s in
    let outside = read_words plain s in
    if eqb (code c) 34
    then outside
    else if is_active_in_double (code c)
    then none
    else grow c inside
read_words blank (c ∷ s) =
    let next = read_words blank s in
    let bare = read_words plain s in
    let in_single = read_words single s in
    let in_double = read_words double s in
    if is_blank (code c)
    then next
    else if eqb (code c) 39
    then in_single
    else if eqb (code c) 34
    then in_double
    else if is_active (code c)
    then none
    else grow c bare
read_words plain (c ∷ s) =
    let next = read_words blank s in
    let bare = read_words plain s in
    let in_single = read_words single s in
    let in_double = read_words double s in
    if is_blank (code c)
    then end_word next
    else if eqb (code c) 39
    then in_single
    else if eqb (code c) 34
    then in_double
    else if is_active (code c)
    then none
    else grow c bare

abbrev pub words : String → Option (List String)
words s = read_words blank s

-- The word s in front of what is read after it.
abbrev grow_all : String → Option (List String) → Option (List String)
grow_all [] o = o
grow_all (c ∷ s) o = grow c (grow_all s o)

and-true : (a b : Bool) → (a && b) ≡ true → (a ≡ true) × (b ≡ true)
and-true a b h = ground arith

-- A safe character stands for itself.
safe-bare :
    (n : ℕ)
    → is_safe n ≡ true
    → (is_blank n ≡ false) × (eqb n 39 ≡ false) × (eqb n 34 ≡ false) × (is_active n ≡ false)
safe-bare n h = ground arith

plain-safe :
    (s r : String)
    → all_safe s ≡ true
    → read_words plain (String.◌++◌ s r) ≡ grow_all s (read_words plain r)
unfolding read_words
plain-safe [] r h = rw (nil-append r) refl
plain-safe (c ∷ s) r h =
    let (safe, more) = and-true (is_safe (code c)) (all_safe s) h in
    let (b, q, d, a) = safe-bare (code c) safe in
    rw (cons-append c s r, b, q, d, a, plain-safe s r more) refl

-- From the start of a word, unless the word is empty.
blank-safe :
    (c : Char) (s r : String)
    → all_safe (c ∷ s) ≡ true
    → read_words blank (String.◌++◌ (c ∷ s) r) ≡ grow_all (c ∷ s) (read_words plain r)
blank-safe c s r h =
    let (safe, more) = and-true (is_safe (code c)) (all_safe s) h in
    let (b, q, d, a) = safe-bare (code c) safe in
    rw (cons-append c s r) (unfold read_words in rw (b, q, d, a, plain-safe s r more) refl)

abbrev apostrophe : Char
apostrophe = "'"

abbrev space : Char
space = " "

abbrev quotation : Char
quotation = "\""

escaped_apostrophe :
    (t : String)
    → String.◌++◌ "'\"'\"'" t ≡ apostrophe ∷ quotation ∷ apostrophe ∷ quotation ∷ apostrophe ∷ t
escaped_apostrophe t =
    cons-append apostrophe "\"'\"'" t
    ∙ ap (λ u. apostrophe ∷ u)
        (cons-append quotation "'\"'" t
          ∙ ap (λ u. quotation ∷ u)
              (cons-append apostrophe "\"'" t
                ∙ ap (λ u. apostrophe ∷ u)
                    (cons-append quotation "'" t
                      ∙ ap (λ u. quotation ∷ u)
                          (cons-append apostrophe "" t ∙ ap (λ u. apostrophe ∷ u) (nil-append t)))))

quote_is : (c : Char) → eqb (code c) 39 ≡ true → c ≡ apostrophe
quote_is c h = codes_equal c apostrophe (ground arith)

-- What stands in single quotes, its own quotes written as '"'"'.
single-escape :
    (s r : String)
    → read_words single (String.◌++◌ (escape_quotes s) (String.◌++◌ "'" r))
      ≡ grow_all s (read_words plain r)
unfolding read_words
single-escape [] r =
    rw (nil-append (String.◌++◌ "'" r), cons-append apostrophe "" r, nil-append r) refl
single-escape (c ∷ s) r = elim (Bool-cases (eqb (code c) 39)) [
  | inl same ↦
      rw
        (
          same,
          quote_is c same,
          append_assoc "'\"'\"'" (escape_quotes s) (String.◌++◌ "'" r),
          escaped_apostrophe (String.◌++◌ (escape_quotes s) (String.◌++◌ "'" r)),
        )
        (ap (grow apostrophe) (single-escape s r))
  | inr other ↦
      rw (other, cons-append c (escape_quotes s) (String.◌++◌ "'" r), other, single-escape s r) refl
]

enter_single : (t : String) → read_words blank (String.◌++◌ "'" t) ≡ read_words single t
unfolding read_words
enter_single t = rw (cons-append apostrophe "" t, nil-append t) refl

enter_single_plain : (t : String) → read_words plain (String.◌++◌ "'" t) ≡ read_words single t
unfolding read_words
enter_single_plain t = rw (cons-append apostrophe "" t, nil-append t) refl

-- Where a word may go on, or begin.
abbrev place : Bool → Mode
place inside = if inside then plain else blank

enter :
    (inside : Bool) (t : String)
    → read_words (place inside) (String.◌++◌ "'" t) ≡ read_words single t
enter false t = enter_single t
enter true t = enter_single_plain t

open-safe :
    (inside : Bool) (c : Char) (s r : String)
    → all_safe (c ∷ s) ≡ true
    → read_words (place inside) (String.◌++◌ (c ∷ s) r) ≡ grow_all (c ∷ s) (read_words plain r)
open-safe false c s r h = blank-safe c s r h
open-safe true c s r h = plain-safe (c ∷ s) r h

in_quotes :
    (inside : Bool) (s r : String)
    → read_words
        (place inside)
        (String.◌++◌ (String.◌++◌ "'" (String.◌++◌ (escape_quotes s) "'")) r)
      ≡ grow_all s (read_words plain r)
in_quotes inside s r =
    rw
      (
        append_assoc "'" (String.◌++◌ (escape_quotes s) "'") r,
        append_assoc (escape_quotes s) "'" r,
        enter inside (String.◌++◌ (escape_quotes s) (String.◌++◌ "'" r)),
      )
      (single-escape s r)

not_empty : (c : Char) (s : String) → ((c ∷ s) == "") ≡ false
not_empty c s = ==-false (c ∷ s) "" (λ e. cons≢nil e)

-- A quoted text is read back as itself, in one word with what follows it.
read_words-quote :
    (inside : Bool) (s r : String)
    → read_words (place inside) (String.◌++◌ (quote s) r) ≡ grow_all s (read_words plain r)
unfolding quote
read_words-quote inside [] r = in_quotes inside "" r
read_words-quote inside (c ∷ s) r = elim (Bool-cases (all_safe (c ∷ s))) [
  | inl safe ↦ rw (not_empty c s, safe) (open-safe inside c s r safe)
  | inr active ↦ rw (not_empty c s, active) (in_quotes inside (c ∷ s) r)
]

grow_all-some :
    (s w : String) (ws : List String)
    → grow_all s (some (List.◌∷◌ w ws)) ≡ some (List.◌∷◌ (String.◌++◌ s w) ws)
grow_all-some [] w ws = rw (nil-append w) refl
grow_all-some (c ∷ s) w ws = rw (grow_all-some s w ws, cons-append c s w) refl

-- A quoted text at the end of a line.
pub read_words-quote_end :
    (inside : Bool) (s : String) → read_words (place inside) (quote s) ≡ some (List.◌∷◌ s List.[])
read_words-quote_end inside s =
    ap (read_words (place inside)) (sym (append-nil (quote s)))
    ∙ read_words-quote inside s ""
    ∙ unfold read_words in rw (grow_all-some s "" List.[], append-nil s) refl
