-- ===== src/Enroll/Admin/Edited.antt =====
-- Which file an administrator's edit of a host writes: `cmd_node` of src/vpsmcp/__main__.py.
use letkite_lite.Prelude.{
  ℕ, Bool, false, String, ◌==◌, ◌≡◌, ◌≢◌, refl, sym, ap, ◌∙◌, Option, none, some, List, eqb, Result,
  ok, err, arith, ok-injective, ==-false,
}
use letkite_lite.Dict.{lookup, lookup-put, lookup-remove_ne}
use letkite_lite.Inventory.Host.{Host, node_id}
use letkite_lite.Inventory.Load.{explicit_id}
use letkite_lite.Inventory.Lookup.{InventoryError}
use letkite_lite.Inventory.Files.{HostDoc, Files, doc_id, write_host, remove_host, watch}
use letkite_lite.Inventory.Files.Written.{write_host-parts}
use letkite_lite.Enroll.Admin.{
  Command, remove_node, set_scopes, rename, set_tags, approve, Office, doc_from, node_command,
  comma_list, resolved, written,
}

-- A host as `load_inventory` makes it: a user, a port, and a fixed id that reads as itself.
pub record IsSettled (h : Host) : Type 0 where
  pub has_user : (h.user == "") ≡ false
  pub has_port : eqb h.port 0 ≡ false
  pub id_reads : (alias : String) → explicit_id h.fixed_id alias ≡ ok h.fixed_id

-- The key of the host that a command is for.
abbrev pub key_of : Command → Option String
key_of (remove_node key) = some key
key_of (set_scopes key scopes) = some key
key_of (rename key alias) = some key
key_of (set_tags key tags) = some key
key_of (approve nid) = none

module _ (sha256 : String → String) (now : ℕ) (writable : Bool) (h : Host) (i : IsSettled h)
    (o : Office) (j : String) where
  written-keeps :
      (doc : HostDoc) (r : Result InventoryError (String × Files))
      → doc_id sha256 doc h.fixed_id ≡ node_id sha256 h
      → explicit_id doc.node_id doc.alias ≡ ok h.fixed_id
      → write_host sha256 writable now doc o.disk.files ≡ r
      → (node_id sha256 h == j) ≡ false
      → lookup j (written r o).1.disk.files ≡ lookup j o.disk.files
  written-keeps doc (err e) same reads e1 other = refl
  written-keeps doc (ok (name, files)) same reads e1 other =
      let (fixed, good, explicit, named, there) =
        write_host-parts sha256 writable now doc o.disk.files name files e1 in
      let own : h.fixed_id ≡ fixed = ok-injective h.fixed_id fixed (sym reads ∙ explicit) in
      let name_is : name ≡ node_id sha256 h = named ∙ ap (doc_id sha256 doc) (sym own) ∙ same in
      let apart : (name == j) ≡ false = ap (λ n. n == j) name_is ∙ other in
      ap (lookup j) there ∙ lookup-put j name _ o.disk.files ∙ rw apart refl

  edit-keeps :
      (alias : String) (tags scopes : List String)
      → (node_id sha256 h == j) ≡ false
      → (let doc = record (doc_from h) { alias = alias; tags = tags; scopes = scopes } in
          lookup j (written (write_host sha256 writable now doc o.disk.files) o).1.disk.files
          ≡ lookup j o.disk.files)
  edit-keeps alias tags scopes other =
      written-keeps (record (doc_from h) { alias = alias; tags = tags; scopes = scopes }) _
        (unfold node_id in rw (i.has_port, i.has_user) refl) (i.id_reads alias) refl other

-- The key of the command is the one that was looked up.
at_key :
    (sha256 : String → String) (before : String → String → Bool) (k key : String) (h : Host)
    (o : Office)
    → some k ≡ some key
    → resolved (watch sha256 before o.disk o.watcher) key ≡ ok h
    → resolved (watch sha256 before o.disk o.watcher) k ≡ ok h
at_key sha256 before k key h o own found =
    let same : k ≡ key = cc in
    ap (λ n. resolved (watch sha256 before o.disk o.watcher) n) same ∙ found

-- A command on a host that is found, whether it removes the host, or edits it and succeeds or fails, leaves every file of
-- hosts.d as it is but that of the host's own node id.
pub node_command-keeps :
    (sha256 : String → String) (before : String → String → Bool) (now : ℕ) (writable : Bool)
    (key : String) (h : Host) (o : Office) (j : String) (cmd : Command)
    → key_of cmd ≡ some key
    → resolved (watch sha256 before o.disk o.watcher) key ≡ ok h
    → IsSettled h
    → node_id sha256 h ≢ j
    → lookup j (node_command sha256 before writable now cmd o).1.disk.files ≡ lookup j o.disk.files
unfolding node_command remove_host
node_command-keeps sha256 before now writable key h o j (remove_node k) own found i other =
    rw (at_key sha256 before k key h o own found)
      (lookup-remove_ne j (node_id sha256 h) o.disk.files (λ e. other (sym e)))
node_command-keeps sha256 before now writable key h o j (set_scopes k scopes) own found i other =
    rw (at_key sha256 before k key h o own found) (
      edit-keeps sha256 now writable h i o j h.alias h.tags (comma_list scopes)
        (==-false (node_id sha256 h) j other))
node_command-keeps sha256 before now writable key h o j (rename k alias) own found i other =
    rw (at_key sha256 before k key h o own found) (
      edit-keeps sha256 now writable h i o j alias h.tags h.scopes
        (==-false (node_id sha256 h) j other))
node_command-keeps sha256 before now writable key h o j (set_tags k tags) own found i other =
    rw (at_key sha256 before k key h o own found) (
      edit-keeps sha256 now writable h i o j h.alias (comma_list tags) h.scopes
        (==-false (node_id sha256 h) j other))
node_command-keeps sha256 before now writable key h o j (approve nid) own found i other =
    ground (arith, own)
