-- ===== src/Inventory/Host.antt =====
-- `Host`, `node_id` and `_node_id` of src/vpsmcp/inventory.py.
use Prim.Native.String
use Prim.Native.String.{[], ◌∷◌, char_at}
use text.Mathlib.Text.{starts_with}
use Prim.Native.Char.{code}
use letkite_lite.Prelude.{
  ℕ, zero, suc, ◌/◌, ◌%◌, Bool, true, false, ◌&&◌, ◌||◌, String, ◌==◌, ◌-◌, Option, none, some,
  List, mem, leb, eqb, if◌then◌else◌,
}
use letkite_lite.Prelude.Text.{slice_to, slice_from, lower}

pub record Host : Type 0 where
  pub alias : String
  pub address : String
  pub user : String
  pub port : ℕ
  pub key_file : Option String
  pub host_key : Option String
  pub tags : List String
  pub scopes : List String
  pub workdir : Option String
  pub env : List (String × String)
  pub sudo : Bool
  pub jump : Option String
  pub notes : String
  pub fixed_id : Option String

unfoldable pub allows : Host → String → Bool
allows h scope = mem scope h.scopes

-- str(n)
abbrev digit : ℕ → String
digit n = char_at "0123456789" n ∷ ""

abbrev decimal_digits : ℕ → ℕ → String
decimal_digits zero n = ""
decimal_digits (suc fuel) n =
    let high = decimal_digits fuel (n / 10) in
    if leb n 9 then digit n else String.◌++◌ high (digit (n % 10))

-- One more than the number is fuel enough: each step divides by ten.
unfoldable pub decimal : ℕ → String
decimal n = decimal_digits (suc n) n

-- `sha256` is hashlib.sha256(s.encode()).hexdigest().
unfoldable pub node_id_of : (String → String) → String → ℕ → String → String
unfolding decimal
node_id_of sha256 address port user =
    let raw =
      String.◌++◌ address (String.◌++◌ ":" (String.◌++◌ (decimal port) (String.◌++◌ ":" user))) in
    String.◌++◌ "n_" (slice_to 10 (sha256 (lower raw)))

abbrev pub own_id : Option String → String → String
own_id none computed = computed
own_id (some fixed) computed = if fixed == "" then computed else fixed

unfoldable pub node_id : (String → String) → Host → String
unfolding node_id_of
node_id sha256 h = own_id h.fixed_id (node_id_of sha256 h.address h.port h.user)

-- [a-zA-Z0-9]
abbrev pub is_alnum : ℕ → Bool
is_alnum c = (leb b'a' c && leb c b'z') || (leb b'A' c && leb c b'Z') || (leb b'0' c && leb c b'9')

-- [a-zA-Z0-9._-]{0,n}
abbrev alias_rest : ℕ → String → Bool
alias_rest n [] = true
alias_rest zero (c ∷ s) = false
alias_rest (suc n) (c ∷ s) =
    (is_alnum (code c) || eqb (code c) b'.' || eqb (code c) b'_' || eqb (code c) b'-')
    && alias_rest n s

-- _ALIAS_RE, on a text without a line break at its end
unfoldable pub valid_alias : String → Bool
valid_alias [] = false
valid_alias (c ∷ s) = is_alnum (code c) && alias_rest 63 s

-- [0-9a-f]{min,max}
abbrev hex_digits : ℕ → ℕ → String → Bool
hex_digits at_least at_most [] = eqb at_least 0
hex_digits at_least zero (c ∷ s) = false
hex_digits at_least (suc at_most) (c ∷ s) =
    let rest = hex_digits (at_least - 1) at_most s in
    ((leb b'0' (code c) && leb (code c) b'9') || (leb b'a' (code c) && leb (code c) b'f')) && rest

-- _NODE_ID_RE, on a text without a line break at its end
unfoldable pub valid_node_id : String → Bool
valid_node_id s = starts_with s "n_" && hex_digits 10 32 (slice_from 2 s)

unfoldable pub label : Host → String
label h =
    String.◌++◌ h.alias
      (String.◌++◌ " (" (String.◌++◌ h.user (String.◌++◌ "@" (String.◌++◌ h.address ")"))))
