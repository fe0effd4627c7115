-- ===== src/Enroll/Admin.antt =====
-- The administrator's commands on nodes, `cmd_node` of src/vpsmcp/__main__.py, after the options are read.
pub mod Edited
use letkite_lite.Prelude.{
  ℕ, Bool, true, false, not, String, ◌==◌, Option, none, some, List, [], ◌∷◌, keep, if◌then◌else◌,
  non_empty, Result, ok, err,
}
use letkite_lite.Prelude.Text.{split_on}
use letkite_lite.Settings.{Settings}
use letkite_lite.Inventory.Host.{Host, node_id}
use letkite_lite.Inventory.Lookup.{InventoryError, get}
use letkite_lite.Inventory.Files.{HostDoc, Files, Disk, Watcher, write_host, remove_host, watch}
use letkite_lite.Enroll.Store.{EnrollStore, forget, take_pending}

pub data Command : Type 0 where
  remove_node : String → Command
  set_scopes : String → String → Command
  rename : String → String → Command
  set_tags : String → String → Command
  approve : String → Command

pub record Office : Type 0 where
  pub store : EnrollStore
  pub disk : Disk
  pub watcher : Watcher

pub data Outcome : Type 0 where
  done : Outcome
  -- the host is not found, and the command ends with 1
  no_host : InventoryError → Outcome
  not_pending : Outcome
  -- `write_host` raises
  raised : InventoryError → Outcome

abbrev or_blank : Option String → String
or_blank none = ""
or_blank (some s) = s

-- What a command writes of a host: no key file, no working directory, no environment and no jump host.
abbrev pub doc_from : Host → HostDoc
doc_from h = record {
  alias = h.alias;
  address = h.address;
  port = h.port;
  user = h.user;
  host_key = or_blank h.host_key;
  tags = h.tags;
  scopes = h.scopes;
  sudo = h.sudo;
  notes = h.notes;
  node_id = h.fixed_id;
}

-- [x for x in s.split(",") if x]
abbrev pub comma_list : String → List String
comma_list s = keep non_empty (split_on b',' s)

abbrev pub office_with : Files → Office → Office
office_with files o = record o { disk = record o.disk { files = files } }

abbrev written : Result InventoryError (String × Files) → Office → Outcome × Office
written (err e) o = (raised e, o)
written (ok (nid, files)) o = (done, office_with files o)

abbrev approved :
    (String → String) → Bool → ℕ → Option HostDoc × EnrollStore → Office → Outcome × Office
approved sha256 writable now (none, store) o = (not_pending, record o { store = store })
approved sha256 writable now (some doc, store) o =
    written (write_host sha256 writable now doc o.disk.files) (record o { store = store })

abbrev edited :
    (String → String)
    → Bool
    → ℕ
    → (Host → HostDoc)
    → Result InventoryError Host
    → Office
    → Outcome × Office
edited sha256 writable now change (err e) o = (no_host e, o)
edited sha256 writable now change (ok h) o =
    written (write_host sha256 writable now (change h) o.disk.files) o

abbrev dropped : (String → String) → Result InventoryError Host → Office → Outcome × Office
dropped sha256 (err e) o = (no_host e, o)
dropped sha256 (ok h) o =
    let nid = node_id sha256 h in
    (done, record (office_with (remove_host nid o.disk.files).1 o) { store = forget nid o.store })

-- `resolve`
abbrev resolved : Result InventoryError Watcher → String → Result InventoryError Host
resolved (err e) key = err e
resolved (ok w) key = get key w.hosts

-- A process runs one command: the watcher that it makes is not used again.
unfoldable pub node_command :
    (String → String) → (String → String → Bool) → Bool → ℕ → Command → Office → Outcome × Office
unfolding write_host remove_host watch forget take_pending get
node_command sha256 before writable now (remove_node key) o =
    dropped sha256 (resolved (watch sha256 before o.disk o.watcher) key) o
node_command sha256 before writable now (set_scopes key scopes) o =
    edited sha256 writable now (λ h. record (doc_from h) { scopes = comma_list scopes })
      (resolved (watch sha256 before o.disk o.watcher) key) o
node_command sha256 before writable now (rename key alias) o =
    edited sha256 writable now (λ h. record (doc_from h) { alias = alias })
      (resolved (watch sha256 before o.disk o.watcher) key) o
node_command sha256 before writable now (set_tags key tags) o =
    edited sha256 writable now (λ h. record (doc_from h) { tags = comma_list tags })
      (resolved (watch sha256 before o.disk o.watcher) key) o
node_command sha256 before writable now (approve nid) o =
    approved sha256 writable now (take_pending nid o.store) o
