-- ===== src/Inventory/Load.antt =====
-- `_merge` and `load_inventory` of src/vpsmcp/inventory.py, from the items of the files on: reading
-- the files is not modelled. An item's member that is missing or null is none.
use letkite_lite.Prelude.{
  ℕ, Bool, true, false, not, ◌&&◌, ◌||◌, String, ◌==◌, eqb, Option, none, some, List, [], ◌∷◌, any,
  if◌then◌else◌, Result, ok, err, ◌>>=◌, is_some,
}
use letkite_lite.Prelude.Text.{strip}
use letkite_lite.Dict.{lookup, put, put_all}
use letkite_lite.Inventory.Host.{Host, node_id, valid_alias, valid_node_id}
use letkite_lite.Inventory.Lookup.{
  InventoryError, Hosts, values, invalid_alias, missing_address, invalid_node_id, node_id_taken,
  jump_not_found,
}

pub record Item : Type 0 where
  pub alias : Option String
  pub address : Option String
  pub user : Option String
  pub port : Option ℕ
  pub key_file : Option String
  pub host_key : Option String
  pub tags : Option (List String)
  pub scopes : Option (List String)
  pub workdir : Option String
  pub env : List (String × String)
  pub sudo : Option Bool
  pub jump : Option String
  pub notes : Option String
  pub node_id : Option String

abbrev pub over {ℓ} : {A : Type ℓ} → Option A → Option A → Option A
over d none = d
over d (some a) = some a

unfoldable pub merge : Item → Item → Item
unfolding put_all
merge defaults item = record {
  alias = over defaults.alias item.alias;
  address = over defaults.address item.address;
  user = over defaults.user item.user;
  port = over defaults.port item.port;
  key_file = over defaults.key_file item.key_file;
  host_key = over defaults.host_key item.host_key;
  tags = over defaults.tags item.tags;
  scopes = over defaults.scopes item.scopes;
  workdir = over defaults.workdir item.workdir;
  env = put_all item.env defaults.env;
  sudo = over defaults.sudo item.sudo;
  jump = over defaults.jump item.jump;
  notes = over defaults.notes item.notes;
  node_id = over defaults.node_id item.node_id;
}

abbrev pub or_text : String → Option String → String
or_text d none = d
or_text d (some s) = if s == "" then d else s

abbrev pub or_port : Option ℕ → ℕ
or_port none = 22
or_port (some n) = if eqb n 0 then 22 else n

abbrev or_list : List String → Option (List String) → List String
or_list d none = d
or_list d (some []) = d
or_list d (some (s ∷ ss)) = s ∷ ss

abbrev is_true : Option Bool → Bool
is_true none = false
is_true (some b) = b

-- `_node_id`
unfoldable pub explicit_id : Option String → String → Result InventoryError (Option String)
explicit_id none alias = ok none
explicit_id (some value) alias =
    if value == ""
    then ok none
    else if valid_node_id (strip value)
    then ok (some (strip value))
    else err (invalid_node_id alias (strip value))

abbrev pub default_scopes : List String
default_scopes = "fleet.read" ∷ "fleet.exec" ∷ "fleet.write" ∷ []

abbrev pub host_of : Item → String → String → Option String → Host
host_of merged alias address fixed_id = record {
  alias = alias;
  address = address;
  user = or_text "root" merged.user;
  port = or_port merged.port;
  key_file = merged.key_file;
  host_key = merged.host_key;
  tags = or_list [] merged.tags;
  scopes = or_list default_scopes merged.scopes;
  workdir = merged.workdir;
  env = merged.env;
  sudo = is_true merged.sudo;
  jump = merged.jump;
  notes = or_text "" merged.notes;
  fixed_id = fixed_id;
}

abbrev pub checked :
    Item → String → String → Result InventoryError (Option String) → Result InventoryError Host
checked merged alias address fixed =
    if not (valid_alias alias)
    then err (invalid_alias alias)
    else if address == ""
    then err (missing_address alias)
    else fixed >>= (λ fixed_id. ok (host_of merged alias address fixed_id))

-- The body of the loop, up to the host.
unfoldable pub build : Item → Item → Result InventoryError Host
unfolding merge explicit_id
build defaults item =
    let merged = merge defaults item in
    let alias = strip (or_text "" merged.alias) in
    checked merged alias (strip (or_text "" merged.address)) (explicit_id item.node_id alias)

abbrev same_machine : Host → Host → Bool
same_machine a b = a.address == b.address && eqb a.port b.port && a.user == b.user

-- A fixed id that is already another machine's.
unfoldable pub conflict : Host → Option Host → Bool
conflict h none = false
conflict h (some prev) = is_some prev.fixed_id && is_some h.fixed_id && not (same_machine prev h)

abbrev pub jump_ok : Hosts → Option String → Bool
jump_ok hosts none = true
jump_ok hosts (some j) =
    j == "" || is_some (lookup j hosts) || any (λ h. h.alias == j) (values hosts)

unfoldable pub check_jumps : List Host → Hosts → Result InventoryError Hosts
check_jumps [] hosts = ok hosts
check_jumps (h ∷ hs) hosts =
    let rest = check_jumps hs hosts in
    if jump_ok hosts h.jump then rest else err (jump_not_found h.alias (or_text "" h.jump))

module _ (sha256 : String → String) where
  -- The end of the loop's body.
  unfoldable pub add_host : Host → Hosts → Result InventoryError Hosts
  unfolding conflict
  add_host h hosts =
      let nid = node_id sha256 h in
      if conflict h (lookup nid hosts)
      then err (node_id_taken h.alias nid)
      else ok (put nid h hosts)

  unfoldable pub add_items : Item → List Item → Hosts → Result InventoryError Hosts
  unfolding add_host build
  add_items defaults [] hosts = ok hosts
  add_items defaults (item ∷ items) hosts =
      build defaults item >>= (λ h. add_host h hosts >>= (λ more. add_items defaults items more))

  unfoldable pub load_inventory : Item → List Item → Result InventoryError Hosts
  unfolding add_items check_jumps
  load_inventory defaults items =
      add_items defaults items [] >>= (λ hosts. check_jumps (values hosts) hosts)
