-- ===== src/Inventory/Files.antt =====
-- The files of src/vpsmcp/inventory.py: `write_host`, `remove_host`, and `InventoryWatcher`. The directory
-- hosts.d is the list of its files by name, each with one host, as `write_host` leaves them; writing a
-- document in YAML and reading it back gives the same document.
pub mod Written
use letkite_lite.Prelude.{
  ℕ, zero, suc, Bool, true, false, not, String, ◌==◌, Option, none, some, List, [], ◌∷◌, ◌++◌, map,
  max, eqb, if◌then◌else◌, Result, ok, err, ◌>>=◌, is_some,
}
use letkite_lite.Sql.{order_by}
use letkite_lite.Dict.{lookup, put, remove}
use letkite_lite.Inventory.Host.{Host, node_id_of, own_id, valid_alias}
use letkite_lite.Inventory.Lookup.{InventoryError, Hosts, invalid_alias, cannot_write}
use letkite_lite.Inventory.Load.{Item, explicit_id, load_inventory}

-- The dictionary that a host is written from; an empty text or list is a missing entry.
pub record HostDoc : Type 0 where
  pub alias : String
  pub address : String
  pub port : ℕ
  pub user : String
  pub host_key : String
  pub tags : List String
  pub scopes : List String
  pub sudo : Bool
  pub notes : String
  pub node_id : Option String

pub record File : Type 0 where
  pub mtime : ℕ
  pub doc : HostDoc

abbrev pub Files : Type 0
Files = List (String × File)

abbrev port_or_22 : ℕ → ℕ
port_or_22 n = if eqb n 0 then 22 else n

abbrev user_or_ops : String → String
user_or_ops user = if user == "" then "ops" else user

abbrev pub doc_id : (String → String) → HostDoc → Option String → String
doc_id sha256 doc fixed =
    own_id fixed (node_id_of sha256 doc.address (port_or_22 doc.port) (user_or_ops doc.user))

-- The name of the file that is written, and the files. `writable` is false where making the directory
-- raises PermissionError.
unfoldable pub write_host :
    (String → String) → Bool → ℕ → HostDoc → Files → Result InventoryError (String × Files)
unfolding node_id_of explicit_id
write_host sha256 writable now doc files =
    if not (valid_alias doc.alias)
    then err (invalid_alias doc.alias)
    else explicit_id doc.node_id doc.alias >>= (λ fixed.
      let nid = doc_id sha256 doc fixed in
      let file : File = record { mtime = now; doc = doc } in
      if writable then ok (nid, put nid file files) else err cannot_write)

-- Whether there was such a file, and the files.
unfoldable pub remove_host : String → Files → Bool × Files
unfolding lookup remove
remove_host nid files = (is_some (lookup nid files), remove nid files)

abbrev text_item : String → Option String
text_item s = if s == "" then none else some s

abbrev list_item : List String → Option (List String)
list_item [] = none
list_item (s ∷ ss) = some (s ∷ ss)

-- {k: v for k, v in host.items() if v not in (None, "", [], {})}
unfoldable pub item_of : HostDoc → Item
item_of doc = record {
  alias = text_item doc.alias;
  address = text_item doc.address;
  user = text_item doc.user;
  port = some doc.port;
  key_file = none;
  host_key = text_item doc.host_key;
  tags = list_item doc.tags;
  scopes = list_item doc.scopes;
  workdir = none;
  env = [];
  sudo = some doc.sudo;
  jump = none;
  notes = text_item doc.notes;
  node_id = doc.node_id;
}

-- The main file, with its defaults and its hosts, and the files of hosts.d.
pub record Disk : Type 0 where
  pub main_mtime : ℕ
  pub defaults : Item
  pub main : List Item
  pub files : Files

abbrev latest : ℕ → Files → ℕ
latest m [] = m
latest m ((name, file) ∷ files) = latest (max m file.mtime) files

-- `_mtime`
unfoldable pub mtime_of : Disk → ℕ
mtime_of d = latest d.main_mtime d.files

pub record Watcher : Type 0 where
  pub mtime : ℕ
  pub hosts : Hosts

-- `before` is the order of texts, by which `sorted` compares file names.
module _ (sha256 : String → String) (before : String → String → Bool) where
  -- `load_inventory` over `_sources`
  unfoldable pub load_disk : Disk → Result InventoryError Hosts
  unfolding load_inventory item_of
  load_disk d =
      load_inventory sha256 d.defaults
        (d.main ++ map (λ e. item_of e.1.doc) (order_by (λ a b. before b.0 a.0) d.files))

  -- `InventoryWatcher.get`, where every file's time can be read.
  unfoldable pub watch : Disk → Watcher → Result InventoryError Watcher
  unfolding load_disk mtime_of
  watch d w =
      if eqb (mtime_of d) w.mtime
      then ok w
      else load_disk d >>= (λ hosts. ok record { mtime = mtime_of d; hosts = hosts })
