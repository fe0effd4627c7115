-- ===== src/Inventory/Lookup.antt =====
-- `Inventory.get` and `Inventory.select` of src/vpsmcp/inventory.py. The dictionary of hosts is the
-- list of its items, in its order.
use letkite_lite.Prelude.{
  ℕ, Bool, String, ◌==◌, Option, none, some, List, [], ◌∷◌, any, keep, mem, length, Result, ok, err,
  ◌>>=◌, map, suc,
}
use letkite_lite.Sql.{order_by}
use letkite_lite.Dict.{lookup}
use letkite_lite.Inventory.Host.{Host}

pub data InventoryError : Type 0 where
  -- the key, and how many hosts have it as their alias
  ambiguous : String → ℕ → InventoryError
  unknown_host : String → InventoryError
  no_host_matches_tags : InventoryError
  provide_hosts_or_tags : InventoryError
  invalid_alias : String → InventoryError
  missing_address : String → InventoryError
  invalid_node_id : String → String → InventoryError
  node_id_taken : String → String → InventoryError
  jump_not_found : String → String → InventoryError
  -- the directory of the files cannot be made
  cannot_write : InventoryError

abbrev pub Hosts : Type 0
Hosts = List (String × Host)

abbrev pub values : Hosts → List Host
values hosts = map (λ e. e.1) hosts

unfoldable pub matches : String → Hosts → List Host
matches key hosts = keep (λ h. h.alias == key) (values hosts)

abbrev pub only : String → List Host → Result InventoryError Host
only key [] = err (unknown_host key)
only key (h ∷ []) = ok h
only key (h ∷ g ∷ hs) = err (ambiguous key (suc (suc (length hs))))

abbrev found_or : Result InventoryError Host → Option Host → Result InventoryError Host
found_or r none = r
found_or r (some h) = ok h

unfoldable pub get : String → Hosts → Result InventoryError Host
unfolding lookup matches
get key hosts = found_or (only key (matches key hosts)) (lookup key hosts)

unfoldable pub get_all : List String → Hosts → Result InventoryError (List Host)
unfolding get
get_all [] hosts = ok []
get_all (key ∷ keys) hosts = get key hosts >>= (λ h. get_all keys hosts >>= (λ hs. ok (h ∷ hs)))

-- The order of texts, by which `sorted` compares aliases.
module _ (before : String → String → Bool) where
  abbrev sorted_by_alias : List Host → Result InventoryError (List Host)
  sorted_by_alias [] = err no_host_matches_tags
  sorted_by_alias (h ∷ hs) = ok (order_by (λ a b. before b.alias a.alias) (h ∷ hs))

  abbrev select_tags : List String → Hosts → Result InventoryError (List Host)
  select_tags [] hosts = err provide_hosts_or_tags
  select_tags (t ∷ ts) hosts =
      sorted_by_alias (keep (λ h. any (λ tag. mem tag h.tags) (t ∷ ts)) (values hosts))

  -- A list that is missing is [].
  unfoldable pub select : List String → List String → Hosts → Result InventoryError (List Host)
  unfolding get_all
  select [] tags hosts = select_tags tags hosts
  select (k ∷ keys) tags hosts = get_all (k ∷ keys) hosts
