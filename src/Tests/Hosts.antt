-- ===== src/Tests/Hosts.antt =====
-- The caller's address, the inventory, the guardrails and host resolution on small inputs.
use Prim.Native.String
use letkite_lite.Prelude.{
  ℕ, ◌≤◌, max, Bool, true, false, ◌||◌, String, ◌==◌, ◌≡◌, refl, ◌⊎◌, inl, inr, Option, none, some,
  List, [], ◌∷◌, length, All, any, keep, map, mem, ok, arith,
}
use letkite_lite.Prelude.Text.{words, unwords, split_on}
use letkite_lite.Dict.{lookup}
use letkite_lite.Net.{forwarded, client_ip}
use letkite_lite.Net.Spoofing.{client_ip-ignores_prefix}
use letkite_lite.Inventory.Host.{Host, node_id}
use letkite_lite.Inventory.Lookup.{Hosts, values, matches, get}
use letkite_lite.Inventory.Found.{get-unambiguous}
use letkite_lite.Inventory.Load.{Item, load_inventory, jump_ok}
use letkite_lite.Inventory.Loaded.{IsBuilt, load_inventory_lem}
use letkite_lite.Policy.{Rule, deny, confirm_first, check_command}
use letkite_lite.Policy.Guardrails.{check_command-passed}
use letkite_lite.Runtime.{AccessToken, resolve}
use letkite_lite.Runtime.Resolve.{IsAllowed, resolve-IsAllowed}
use letkite_lite.Tests.Setting.{demo}

client_ip-ignores_prefix_example :
    client_ip
      (record {
        peer = "10.0.0.1";
        forwarded_for = String.◌++◌ "6.6.6.6" (String.◌∷◌ "," "8.8.8.8");
      })
      1
    ≡ client_ip (record { peer = "10.0.0.1"; forwarded_for = "8.8.8.8" }) 1
client_ip-ignores_prefix_example = client_ip-ignores_prefix "10.0.0.1" "6.6.6.6" "8.8.8.8" 1 one
  where
    one : 1 ≤ length (forwarded "8.8.8.8")
    one = unfold forwarded split_on in omega arith

abbrev pub no_item : Item
no_item = record {
  alias = none;
  address = none;
  user = none;
  port = none;
  key_file = none;
  host_key = none;
  tags = none;
  scopes = none;
  workdir = none;
  env = [];
  sudo = none;
  jump = none;
  notes = none;
  node_id = none;
}

abbrev pub items : List Item
items =
    record no_item { alias = some "web"; address = some "10.0.0.5"; node_id = some "n_0123456789" }
    ∷ record no_item {
      alias = some "db";
      address = some "10.0.0.6";
      jump = some "web";
      tags = some ("sql" ∷ []);
    }
    ∷ []

abbrev pub web : Host
web = record {
  alias = "web";
  address = "10.0.0.5";
  user = "root";
  port = 22;
  key_file = none;
  host_key = none;
  tags = [];
  scopes = "fleet.read" ∷ "fleet.exec" ∷ "fleet.write" ∷ [];
  workdir = none;
  env = [];
  sudo = false;
  jump = none;
  notes = "";
  fixed_id = some "n_0123456789";
}

abbrev pub db : Host
db = record web {
  alias = "db";
  address = "10.0.0.6";
  tags = "sql" ∷ [];
  jump = some "web";
  fixed_id = none;
}

abbrev pub hosts : Hosts
hosts = ("n_0123456789", web) ∷ ("n_10.0.0.6:2", db) ∷ []

loads : load_inventory (λ s. s) no_item items ≡ ok hosts
unfolding load_inventory letkite_lite.Inventory.Host.valid_alias letkite_lite.Prelude.Text.strip
    letkite_lite.Inventory.Host.valid_node_id letkite_lite.Prelude.Text.slice_from lookup node_id
    letkite_lite.Prelude.Text.slice_to letkite_lite.Prelude.Text.lower
loads = refl

load_inventory_lem_example :
    All (λ e. ((e.0 ≡ node_id (λ s. s) e.1) × IsBuilt e.1) × (get e.0 hosts ≡ ok e.1)) hosts
    × All (λ h. jump_ok hosts h.jump ≡ true) (values hosts)
load_inventory_lem_example = load_inventory_lem (λ s. s) no_item items hosts loads

get-unambiguous_example :
    (lookup "db" hosts ≡ some db) ⊎ ((lookup "db" hosts ≡ none) × (matches "db" hosts ≡ db ∷ []))
unfolding get
get-unambiguous_example = get-unambiguous "db" hosts db refl

abbrev pub blob : String → Option (List ℕ)
blob s = some (0 ∷ 0 ∷ 0 ∷ 7 ∷ 115 ∷ 115 ∷ 104 ∷ 45 ∷ 114 ∷ 115 ∷ 97 ∷ 1 ∷ [])

-- Finds the rule for recursive deletion only.
abbrev pub found : Rule → String → Bool
found r s = r.why == "recursive delete"

check_command-passed_example :
    (any (λ r. found r (unwords (words "rm  -r x"))) deny ≡ false)
    × ((true ≡ true) ⊎ (any (λ r. found r (unwords (words "rm  -r x"))) confirm_first ≡ false))
    × ("recursive delete" ∷ []
        ≡ map (λ r. r.why) (keep (λ r. found r (unwords (words "rm  -r x"))) confirm_first))
unfolding check_command
check_command-passed_example =
    check_command-passed found "rm  -r x" true ("recursive delete" ∷ []) refl

abbrev reader : Option AccessToken
reader = some (record { subject = "ops"; client_id = "app"; scopes = "fleet.read" ∷ [] })

resolve-IsAllowed_example : (get "db" hosts ≡ ok db) × IsAllowed demo reader "fleet.read" db
unfolding resolve get letkite_lite.Policy.guard
resolve-IsAllowed_example = resolve-IsAllowed demo reader hosts "db" "fleet.read" db refl
