-- ===== src/Enroll/Gate.antt =====
-- The gate in front of the routes of `EnrollService`, and the routes that hand out texts, of
-- src/vpsmcp/enroll.py.
pub mod Admission
use text.Mathlib.Text.{starts_with}
use letkite_lite.Prelude.{
  ℕ, Bool, true, false, not, ◌||◌, String, ◌==◌, Option, none, some, List, [], ◌∷◌, eqb,
  if◌then◌else◌, non_empty,
}
use letkite_lite.Net.{Source, client_ip}
use letkite_lite.Prelude.Text.{strip}
use letkite_lite.Settings.{Settings}
use letkite_lite.Enroll.Store.{EnrollStore, locked, failed}
use Prim.Native.String

-- `ipaddress`: an address as a text, none where the text is no address, and whether a network that is given
-- by a text has it, none where the text is no network.
pub record Addresses : Type 0 where
  pub ip_address : String → Option String
  pub in_network : String → String → Option Bool

pub record Visit : Type 0 where
  pub source : Source
  pub host : String
  -- the header x-enroll-key, empty if absent
  pub key : String

pub data Denial : Type 0 where
  e_closed : Denial
  e_rate : Denial
  not_allowed : Denial
  unrecognised : Denial
  e_key : Denial

-- any(addr in ip_network(c) for c in cidrs)
unfoldable pub in_any : (String → String → Option Bool) → String → List String → Option Bool
in_any in_network addr [] = some false
in_any in_network addr (c ∷ cs) = found (in_network addr c) (in_any in_network addr cs)
  where
    found : Option Bool → Option Bool → Option Bool
    found none rest = none
    found (some true) rest = some true
    found (some false) rest = rest

abbrev network_denial : Option Bool → Option Denial
network_denial none = some unrecognised
network_denial (some true) = none
network_denial (some false) = some not_allowed

abbrev address_denial : Addresses → List String → Option String → Option Denial
address_denial a cidrs none = some unrecognised
address_denial a cidrs (some addr) = network_denial (in_any a.in_network addr cidrs)

unfoldable pub cidr_denial : Addresses → List String → String → Option Denial
unfolding in_any
cidr_denial a [] ip = none
cidr_denial a (c ∷ cs) ip = address_denial a (c ∷ cs) (a.ip_address ip)

abbrev pub key_check : ℕ → String → String → String → EnrollStore → Option Denial × EnrollStore
key_check now ip expected got s =
    if expected == ""
    then (none, s)
    else if got == expected
    then (none, s)
    else (some e_key, failed now ip s)

abbrev pub after_cidrs :
    ℕ → String → String → String → EnrollStore → Option Denial → Option Denial × EnrollStore
after_cidrs now ip expected got s (some d) = (some d, s)
after_cidrs now ip expected got s none = key_check now ip expected got s

-- Why the visit is refused, if it is, and the store.
unfoldable pub gate : Addresses → Settings → ℕ → Visit → EnrollStore → Option Denial × EnrollStore
unfolding locked failed cidr_denial
gate a c now v s =
    let ip = client_ip v.source c.trusted_proxy_hops in
    if c.enroll_mode == "off"
    then (some e_closed, s)
    else if not (eqb (locked now ip s) 0)
    then (some e_rate, s)
    else after_cidrs now ip c.enroll_key v.key s (cidr_denial a c.enroll_allow_cidrs ip)

unfoldable pub base : Settings → Visit → String
base c v =
    if starts_with v.host "127.0.0.1" || starts_with v.host "localhost"
    then String.◌++◌ "http://" v.host
    else c.public_url

pub data Page : Type 0 where
  forbidden : Denial → Page
  not_ready : Page
  plain_text : String → Page

abbrev key_page : Option String → Page
key_page none = not_ready
key_page (some key) = plain_text (String.◌++◌ (strip key) "\n")

abbrev pubkey_page : Option String → Option Denial → Page
pubkey_page key (some d) = forbidden d
pubkey_page key none = key_page key

-- `pubkey` is the content of the gateway's public key file, none if there is no such file.
unfoldable pub get_pubkey :
    Addresses → Settings → Option String → ℕ → Visit → EnrollStore → Page × EnrollStore
unfolding gate
get_pubkey a c pubkey now v s =
    let (deny, after) = gate a c now v s in (pubkey_page pubkey deny, after)
