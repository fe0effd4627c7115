-- ===== src/Proxy/Head.antt =====
-- The texts of a request's head in src/vpsmcp/proxy.py: `_parse_head`, `_title`, and the splits of `handle` and
-- `_connect`.
use Prim.Native.String
use Prim.Native.String.{[], ◌∷◌, char_at}
use Prim.Native.Char.{Char, code}
use letkite_lite.Prelude.{
  ℕ, ◌-◌, Bool, true, false, ◌&&◌, ◌||◌, String, ◌==◌, Option, none, some, List, eqb, leb,
  if◌then◌else◌,
}
use letkite_lite.Prelude.Text.{lower, strip, split_on, partition}
use letkite_lite.Dict.{put}

pub record RequestHead : Type 0 where
  pub line : String
  pub headers : List (String × String)

abbrev grow : String → List String → List String
grow t List.[] = List.[]
grow t (List.◌∷◌ w ws) = List.◌∷◌ (String.◌++◌ t w) ws

-- text.split("\r\n"); the flag says that a carriage return stands before, which is in no line yet.
unfoldable pub split_crlf : Bool → String → List String
split_crlf false [] = List.◌∷◌ "" List.[]
split_crlf true [] = List.◌∷◌ "\r" List.[]
split_crlf false (c ∷ s) =
    let next = split_crlf false s in
    let held = split_crlf true s in if eqb (code c) 13 then held else grow (c ∷ "") next
split_crlf true (c ∷ s) =
    let next = split_crlf false s in
    let held = split_crlf true s in
    if eqb (code c) 10
    then List.◌∷◌ "" next
    else if eqb (code c) 13
    then grow "\r" held
    else grow (String.◌++◌ "\r" (c ∷ "")) next

abbrev header_line : String → List (String × String) → List (String × String)
header_line h headers =
    let (k, v) = partition b':' h in
    if h == "" then headers else put (lower (strip k)) (strip v) headers

abbrev header_lines : List String → List (String × String) → List (String × String)
header_lines List.[] headers = headers
header_lines (List.◌∷◌ h hs) headers = header_lines hs (header_line h headers)

abbrev head_of : List String → RequestHead
head_of List.[] = record { line = ""; headers = List.[] }
head_of (List.◌∷◌ line hs) = record { line = line; headers = header_lines hs List.[] }

-- `_parse_head`, after the bytes are decoded
unfoldable pub parse_head : String → RequestHead
unfolding split_crlf put
parse_head text = head_of (split_crlf false text)

-- s.split(" ", 1), none if there is no blank
abbrev after_char : ℕ → Char → String → Option (String × String) → Option (String × String)
after_char sep c s none = if eqb (code c) sep then some ("", s) else none
after_char sep c s (some (before, after)) =
    if eqb (code c) sep then some ("", s) else some (c ∷ before, after)

unfoldable pub split_once : ℕ → String → Option (String × String)
split_once sep [] = none
split_once sep (c ∷ s) = after_char sep c s (split_once sep s)

abbrev target_of : String → Option (String × String) → Option (String × String)
target_of method none = none
target_of method (some (target, version)) = some (method, target)

abbrev method_of : Option (String × String) → Option (String × String)
method_of none = none
method_of (some (method, rest)) = target_of method (split_once b' ' rest)

-- The method and the target of `line.split(" ", 2)`, none where there are fewer than three parts.
unfoldable pub parse_line : String → Option (String × String)
unfolding split_once
parse_line line = method_of (split_once b' ' line)

abbrev is_bracket : ℕ → Bool
is_bracket c = eqb c b'[' || eqb c b']'

abbrev strip_left : String → String
strip_left [] = []
strip_left (c ∷ s) = let rest = strip_left s in if is_bracket (code c) then rest else c ∷ s

abbrev keep_char : Char → String → String
keep_char c [] = if is_bracket (code c) then [] else c ∷ []
keep_char c (d ∷ s) = c ∷ d ∷ s

abbrev strip_right : String → String
strip_right [] = []
strip_right (c ∷ s) = keep_char c (strip_right s)

-- s.strip("[]")
unfoldable pub strip_brackets : String → String
strip_brackets s = strip_right (strip_left s)

abbrev upper_char : Char → Char
upper_char c =
    if leb 97 (code c) && leb (code c) 122
    then char_at "ABCDEFGHIJKLMNOPQRSTUVWXYZ" (code c - 97)
    else c

abbrev upper : String → String
upper [] = []
upper (c ∷ s) = upper_char c ∷ upper s

-- s.upper() == t, on ASCII text
unfoldable pub upper_eq : String → String → Bool
upper_eq s t = upper s == t

abbrev capitalize : String → String
capitalize [] = []
capitalize (c ∷ s) = upper_char c ∷ lower s

abbrev join_dashes : List String → String
join_dashes List.[] = ""
join_dashes (List.◌∷◌ p List.[]) = capitalize p
join_dashes (List.◌∷◌ p (List.◌∷◌ q ps)) =
    String.◌++◌ (capitalize p) (String.◌++◌ "-" (join_dashes (List.◌∷◌ q ps)))

-- `_title`, on ASCII text
unfoldable pub title : String → String
title k = join_dashes (split_on b'-' k)

-- "\r\n".join(lines)
unfoldable pub join_crlf : List String → String
join_crlf List.[] = ""
join_crlf (List.◌∷◌ p List.[]) = p
join_crlf (List.◌∷◌ p (List.◌∷◌ q ps)) =
    String.◌++◌ p (String.◌++◌ "\r\n" (join_crlf (List.◌∷◌ q ps)))
