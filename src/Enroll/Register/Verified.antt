-- ===== src/Enroll/Register/Verified.antt =====
-- What `register` of src/vpsmcp/enroll.py leaves in the directory of hosts.
use mathlib.Core.Path.{subst}
use letkite_lite.Prelude.{
  ℕ, suc, Bool, true, false, String, ◌==◌, ◌≡◌, ◌⊎◌, refl, sym, ap, ◌∙◌, Option, none, some, [],
  length, eqb, Result, ok, err, Bool-cases, inl, inr, arith, ok-injective,
}
use letkite_lite.Prelude.Text.{strip}
use letkite_lite.Dict.{lookup, put, lookup-put, lookup-remove, ==→≡}
use letkite_lite.Net.{client_ip}
use letkite_lite.Settings.{Settings}
use letkite_lite.Inventory.Host.{Host, node_id_of}
use letkite_lite.Inventory.HostKey.{valid_host_key}
use letkite_lite.Inventory.Load.{explicit_id}
use letkite_lite.Inventory.Lookup.{InventoryError, get}
use letkite_lite.Inventory.Files.{
  HostDoc, File, Files, Disk, Watcher, write_host, remove_host, watch,
}
use letkite_lite.Inventory.Files.Written.{write_host-parts}
use letkite_lite.Ssh.Pool.{Pool, SshError, acquire}
use letkite_lite.Enroll.Register.Probed.{IsProbed, probe-IsProbed}
use letkite_lite.Enroll.Gate.{Visit, Denial, gate}
use letkite_lite.Enroll.Register.{
  Outside, World, Response, enrolled, Fields, fields, doc_of, port_of, PortField, absent,
  unreadable, negative, number, user_of, register, register_host, register_gated, written, verdict,
  probe, with_files, command_ok, host_ok, watched_ok,
}

port_of-positive : (p : PortField) → eqb (port_of p) 0 ≡ false
unfolding port_of
port_of-positive absent = refl
port_of-positive unreadable = refl
port_of-positive negative = refl
port_of-positive (number n) = ground arith

-- The probe changes no file.
module _ (x : Outside) (c : Settings) (now : ℕ) where
  command_ok-disk : (r : Result SshError ℕ × Pool) (w : World) → (command_ok x r w).1.disk ≡ w.disk
  command_ok-disk (err e, pool) w = refl
  command_ok-disk (ok conn, pool) w = refl

  host_ok-disk :
      (r : Result InventoryError Host) (w : World) → (host_ok x c now r w).1.disk ≡ w.disk
  host_ok-disk (err e) w = refl
  host_ok-disk (ok h) w =
      command_ok-disk
        (acquire x.remote c w.watcher.hosts now (suc (suc (length w.watcher.hosts))) [] h w.pool) w

  watched_ok-disk :
      (nid : String) (r : Result InventoryError Watcher) (w : World)
      → (watched_ok x c now nid r w).1.disk ≡ w.disk
  watched_ok-disk nid (err e) w = refl
  watched_ok-disk nid (ok watcher) w =
      host_ok-disk (get nid watcher.hosts) (record w { watcher = watcher })

  probe-disk : (nid : String) (w : World) → (probe x c now nid w).1.disk ≡ w.disk
  unfolding probe
  probe-disk nid w = watched_ok-disk nid (watch x.remote.sha256 x.before w.disk w.watcher) w

abbrev file_of : ℕ → HostDoc → File
file_of now doc = record { mtime = now; doc = doc }

abbrev with_file : String → File → Disk → Disk
with_file j f disk = record disk { files = put j f disk.files }

-- A file that was there before, or that of a machine that the gateway has logged in to after it was written.
abbrev pub IsOldOrOwn : Outside → Settings → ℕ → String → World → String → File → Response → Type 0
IsOldOrOwn x c now ip w j f r =
    (lookup j w.disk.files ≡ some f)
    ⊎ ((f.doc.address ≡ ip)
        × (r ≡ enrolled j f.doc.alias)
        × IsProbed x c now j (with_file j f w.disk) w.watcher w.pool)

own_name :
    (sha256 : String → String) (writable : Bool) (now : ℕ) (doc : HostDoc) (files after : Files)
    (name : String)
    → doc.node_id ≡ none
    → (doc.user == "") ≡ false
    → eqb doc.port 0 ≡ false
    → write_host sha256 writable now doc files ≡ ok (name, after)
    → name ≡ node_id_of sha256 doc.address doc.port doc.user
unfolding explicit_id
own_name sha256 writable now doc files after name free user port e =
    let (fixed, good, explicit, named, there) =
      write_host-parts sha256 writable now doc files name after e in
    let no_fixed : none ≡ fixed = ok-injective none fixed (rw free at explicit) in
    named ∙ rw (sym no_fixed, user, port) refl

verdict-files :
    (x : Outside) (c : Settings) (now : ℕ) (nid : String) (doc : HostDoc) (start : World) (b : Bool)
    (w : World) (j : String) (f : File)
    → (b ≡ true
        → IsProbed x c now nid
            (with_file nid (file_of now doc) start.disk)
            start.watcher
            start.pool)
    → w.disk.files ≡ put nid (file_of now doc) start.disk.files
    → lookup j (verdict now nid doc (b, w)).1.disk.files ≡ some f
    → IsOldOrOwn x c now doc.address start j f (verdict now nid doc (b, w)).0
unfolding remove_host
verdict-files x c now nid doc start false w j f probed files found =
    let kept = sym (lookup-remove j nid w.disk.files) ∙ found in
    elim (Bool-cases (nid == j)) [
      | inl same ↦ let gone : none ≡ some f = (rw same at kept) in ground (arith, gone)
      | inr other ↦
          let still : lookup j w.disk.files ≡ some f = (rw other at kept) in
          let there =
            sym (lookup-put j nid (file_of now doc) start.disk.files)
            ∙ ap (lookup j) (sym files)
            ∙ still in
          inl (rw other at there)
    ]
verdict-files x c now nid doc start true w j f probed files found =
    let there =
      sym (lookup-put j nid (file_of now doc) start.disk.files)
      ∙ ap (lookup j) (sym files)
      ∙ found in
    elim (Bool-cases (nid == j)) [
      | inl same ↦
          let own : some (file_of now doc) ≡ some f = (rw same at there) in
          let file : file_of now doc ≡ f = cc in
          inr (
            ap (λ g. g.doc.address) (sym file),
            ap (λ k. enrolled k doc.alias) (==→≡ nid j same)
                ∙ ap (λ g. enrolled j g.doc.alias) file,
            subst (λ g. IsProbed x c now j (with_file j g start.disk) start.watcher start.pool) file
                (subst
                  (λ k.
                    IsProbed x c now k (with_file k (file_of now doc) start.disk) start.watcher
                      start.pool)
                  (==→≡ nid j same) (probed refl)),
          )
      | inr other ↦ inl (rw other at there)
    ]

module _ (x : Outside) (c : Settings) (now : ℕ) (doc : HostDoc) (w : World) (j : String)
    (f : File) where
  abbrev nid_of : String
  nid_of = node_id_of x.remote.sha256 doc.address doc.port doc.user

  written-files :
      (r : Result InventoryError (String × Files))
      → doc.node_id ≡ none
      → (doc.user == "") ≡ false
      → eqb doc.port 0 ≡ false
      → write_host x.remote.sha256 x.writable now doc w.disk.files ≡ r
      → lookup j (written x c now nid_of doc r w).1.disk.files ≡ some f
      → IsOldOrOwn x c now doc.address w j f (written x c now nid_of doc r w).0
  written-files (err e) free user port e1 found = inl found
  written-files (ok (name, files)) free user port e1 found =
      let own =
        own_name x.remote.sha256 x.writable now doc w.disk.files files name free user port e1 in
      let (fixed, good, explicit, named, put_there) =
        write_host-parts x.remote.sha256 x.writable now doc w.disk.files name files e1 in
      let own_files : files ≡ put nid_of (file_of now doc) w.disk.files =
        put_there ∙ ap (λ n. put n (file_of now doc) w.disk.files) own in
      verdict-files x c now nid_of doc w (probe x c now nid_of (with_files files w)).0
        (probe x c now nid_of (with_files files w)).1 j f
        (λ good.
          subst (λ d. IsProbed x c now nid_of (record w.disk { files = d }) w.watcher w.pool)
            own_files (probe-IsProbed x c now nid_of (with_files files w) good))
        (ap (λ d. d.files) (probe-disk x c now nid_of (with_files files w)) ∙ own_files) found

  register_host-files :
      doc.node_id ≡ none
      → (doc.user == "") ≡ false
      → eqb doc.port 0 ≡ false
      → lookup j (register_host x c now doc w).1.disk.files ≡ some f
      → IsOldOrOwn x c now doc.address w j f (register_host x c now doc w).0
  unfolding register_host
  register_host-files free user port found = elim (Bool-cases (c.enroll_mode == "approve")) [
    | inl approve ↦ inl (rw approve at found)
    | inr direct ↦
        let now_found : lookup j
              (written x c now nid_of doc
                (write_host x.remote.sha256 x.writable now doc w.disk.files) w).1.disk.files
            ≡ some f =
          (rw direct at found) in
        rw direct (written-files _ free user port refl now_found)
  ]

register_gated-files :
    (x : Outside) (c : Settings) (now : ℕ) (ip : String) (fs : Fields) (deny : Option Denial)
    (w : World) (j : String) (f : File)
    → (user_of c fs.user == "") ≡ false
    → lookup j (register_gated x c now ip (fields fs) deny w).1.disk.files ≡ some f
    → IsOldOrOwn x c now ip w j f (register_gated x c now ip (fields fs) deny w).0
register_gated-files x c now ip fs (some d) w j f user found = inl found
register_gated-files x c now ip fs none w j f user found =
    let doc = doc_of c ip (strip fs.host_key) fs in
    elim (Bool-cases (valid_host_key x.remote.b64decode (strip fs.host_key))) [
      | inr bad ↦ inl (rw bad at found)
      | inl good ↦ elim (Bool-cases (ip == "")) [
        | inl nowhere ↦ inl (rw (good, nowhere) at found)
        | inr there ↦
            let own : lookup j (register_host x c now doc w).1.disk.files ≡ some f =
              (rw (good, there) at found) in
            rw (good, there)
              (unfold doc_of in
                register_host-files x c now doc w j f refl user (port_of-positive fs.port) own)
      ]
    ]

-- A registration with a user that has a character to keep: each file of hosts.d after it was there before as it
-- is, or is the file of the caller's own address; then the answer is that the machine is enrolled, and with that file
-- written the gateway has read the inventory again, found the host of the file's id in it, got a connection to that host
-- from its pool, and a command on that connection has ended with 0.
pub register-verified :
    (x : Outside) (c : Settings) (now : ℕ) (v : Visit) (fs : Fields) (w : World) (j : String)
    (f : File)
    → (user_of c fs.user == "") ≡ false
    → lookup j (register x c now v (fields fs) w).1.disk.files ≡ some f
    → IsOldOrOwn x c now
        (client_ip v.source c.trusted_proxy_hops)
        w
        j
        f
        (register x c now v (fields fs) w).0
unfolding register
register-verified x c now v fs w j f user found =
    let r = gate x.addresses c now v w.store in
    register_gated-files x c now (client_ip v.source c.trusted_proxy_hops) fs r.0
      (record w { store = r.1 }) j f user found
