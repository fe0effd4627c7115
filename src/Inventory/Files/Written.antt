-- ===== src/Inventory/Files/Written.antt =====
-- A host that `write_host` of src/vpsmcp/inventory.py wrote, as `load_inventory` reads it back.

use letkite_lite.Prelude.{
  ℕ, Bool, true, false, String, ◌==◌, ◌≡◌, sym, ap, ◌∙◌, Option, eqb, ok, bind-ok, ok-injective,
  err≢ok, Bool-cases, inl, inr,
}
use letkite_lite.Prelude.Text.{strip}
use letkite_lite.Dict.{put}
use letkite_lite.Inventory.Host.{Host, valid_alias, node_id}
use letkite_lite.Inventory.Load.{explicit_id}
use letkite_lite.Inventory.Files.{HostDoc, File, Files, write_host, doc_id}

-- A document that says what it means: no text that is read is missing, and none has blanks around it.
pub record IsProper (doc : HostDoc) : Type 0 where
  pub named : strip doc.alias ≡ doc.alias
  pub located : strip doc.address ≡ doc.address
  pub has_address : (doc.address == "") ≡ false
  pub has_user : (doc.user == "") ≡ false
  pub has_port : eqb doc.port 0 ≡ false

pub write_host-parts :
    (sha256 : String → String) (writable : Bool) (now : ℕ) (doc : HostDoc) (files : Files)
    (nid : String) (after : Files)
    → write_host sha256 writable now doc files ≡ ok (nid, after)
    → (fixed : Option String) × (valid_alias doc.alias ≡ true)
      × (explicit_id doc.node_id doc.alias ≡ ok fixed)
      × (nid ≡ doc_id sha256 doc fixed)
      × (after ≡ put nid (let f : File = record { mtime = now; doc = doc } in f) files)
unfolding write_host
write_host-parts sha256 writable now doc files nid after e =
    elim (Bool-cases (valid_alias doc.alias)) [
      | inr bad ↦ err≢ok (rw bad at e)
      | inl good ↦
          let (fixed, explicit, e1) =
            bind-ok (explicit_id doc.node_id doc.alias) _ (nid, after) (rw good at e) in
          elim (Bool-cases writable) [
            | inr closed ↦ err≢ok (rw closed at e1)
            | inl open_dir ↦
                let pair = ok-injective _ (nid, after) (rw open_dir at e1) in
                let name = ap (λ p. p.0) pair in
                (
                  fixed,
                  good,
                  explicit,
                  sym name,
                  sym (ap (λ p. p.1) pair)
                      ∙ ap
                          (λ k. put k (let f : File = record { mtime = now; doc = doc } in f) files)
                          name,
                )
          ]
    ]
