-- ===== src/Tests/Enrolling.antt =====
-- Enrollment on a small registration.
use letkite_lite.Prelude.{
  ◌≢◌, eq_iff, ℕ, ◌+◌, ◌^◌, ◌≤◌, ◌<◌, min, true, false, String, ◌==◌, ◌≡◌, ◌⊎◌, refl, some, none,
  List, [], ◌∷◌, Option, arith, if◌then◌else◌, inl, inr,
}
use letkite_lite.Dict.{lookup}
use letkite_lite.Net.{Source, client_ip}
use letkite_lite.Settings.{Settings}
use letkite_lite.Inventory.Host.{Host, node_id}
use letkite_lite.Inventory.Files.{HostDoc, File, Files, Disk, Watcher, write_host}
use letkite_lite.Enroll.Store.{EnrollStore, failed}
use letkite_lite.Enroll.Gate.{Addresses, Visit, gate, e_rate}
use letkite_lite.Enroll.Gate.Admission.{gate-locks, IsAdmitted}
use letkite_lite.Enroll.Register.{
  Outside, World, Fields, Body, fields, malformed, absent, register, enrolled,
}
use letkite_lite.Enroll.Register.Verified.{register-verified, IsOldOrOwn}
use letkite_lite.Enroll.Register.Guarded.{register-guarded, IsUntouched}
use letkite_lite.Enroll.Admin.{Office, done, node_command, rename, office_with}
use letkite_lite.Enroll.Admin.Edited.{node_command-keeps, IsSettled}
use letkite_lite.Tests.Setting.{demo, peer}
use letkite_lite.Tests.Machines.{restarted, bytes_to_text, process}
use letkite_lite.Tests.Hosts.{no_item, web, hosts}

abbrev addresses : Addresses
addresses = record { ip_address = λ s. some s; in_network = λ a n. some false }

-- The blob of a key of type ssh-rsa: its length, and its letters.
abbrev rsa_blob : String → Option (List ℕ)
rsa_blob s = some (0 ∷ 0 ∷ 0 ∷ 7 ∷ 115 ∷ 115 ∷ 104 ∷ 45 ∷ 114 ∷ 115 ∷ 97 ∷ [])

abbrev outside : Outside
outside = record {
  remote = record restarted { b64decode = rsa_blob };
  addresses = addresses;
  before = λ s t. false;
  decode = bytes_to_text;
  writable = true;
  probe = λ conn. some process;
}

abbrev open_mode : Settings
open_mode = record demo { enroll_mode = "open"; strict_host_keys = false }

abbrev no_store : EnrollStore
no_store = record { nodes = []; pending = []; attempts = [] }

abbrev disk : Disk
disk = record { main_mtime = 1; defaults = no_item; main = []; files = [] }

abbrev world : World
world = record {
  store = no_store;
  disk = disk;
  watcher = record { mtime = 1; hosts = [] };
  pool = [];
  audit = [];
}

abbrev visit : Visit
visit = record { source = peer; host = "gw.test"; key = "" }

abbrev answers : Fields
answers = record {
  host_key = "ssh-rsa AAAA";
  alias = "web 01";
  user = "ops";
  port = absent;
  tags = "prod, eu";
  hostname = "web";
  os = "";
  arch = "";
}

abbrev doc : HostDoc
doc = record {
  alias = "web-01";
  address = "10.0.0.1";
  port = 22;
  user = "ops";
  host_key = "ssh-rsa AAAA";
  tags = "prod" ∷ "eu" ∷ [];
  scopes = [];
  sudo = false;
  notes = "web";
  node_id = none;
}

abbrev written_file : File
written_file = record { mtime = 50; doc = doc }

abbrev nid : String
nid = "n_10.0.0.1:2"

answers-enrolled :
    (register outside open_mode 50 visit (fields answers) world).0 ≡ enrolled nid "web-01"
unfolding register letkite_lite.Inventory.HostKey.valid_host_key letkite_lite.Prelude.Text.strip
    letkite_lite.Prelude.Text.split_on client_ip letkite_lite.Net.forwarded
    letkite_lite.Inventory.Host.valid_alias letkite_lite.Prelude.Text.slice_to node_id
    letkite_lite.Prelude.Text.lower
answers-enrolled = refl

register-verified_example :
    IsOldOrOwn outside open_mode 50 "10.0.0.1" world nid written_file
      (register outside open_mode 50 visit (fields answers) world).0
unfolding letkite_lite.Enroll.Register.user_of letkite_lite.Prelude.Text.slice_to lookup register
    letkite_lite.Inventory.HostKey.valid_host_key letkite_lite.Prelude.Text.strip
    letkite_lite.Prelude.Text.split_on client_ip letkite_lite.Net.forwarded
    letkite_lite.Inventory.Host.valid_alias node_id letkite_lite.Prelude.Text.lower
    letkite_lite.Prelude.Text.words
register-verified_example =
    register-verified outside open_mode 50 visit answers world nid written_file refl refl

register-guarded_example :
    IsAdmitted addresses demo 50 visit no_store
    ⊎ IsUntouched world (register outside demo 50 visit malformed world).1
register-guarded_example = register-guarded outside demo 50 visit malformed world

abbrev four_failures : EnrollStore
four_failures = record no_store {
  attempts = (record { ip = "10.0.0.1"; fails = 4; locked_until = 0 }) ∷ [];
}

gate-locks_example :
    gate addresses open_mode 120 visit (failed 100 "10.0.0.1" four_failures)
    ≡ (some e_rate, failed 100 "10.0.0.1" four_failures)
unfolding client_ip letkite_lite.Net.forwarded
gate-locks_example =
    gate-locks addresses open_mode 100 120 visit four_failures (omega arith) (omega arith)

abbrev sha : String → String
sha s = s

abbrev office : Office
office = record { store = no_store; disk = disk; watcher = record { mtime = 1; hosts = hosts } }

web-IsSettled : IsSettled web
unfolding letkite_lite.Inventory.Load.explicit_id letkite_lite.Inventory.Host.valid_node_id
    letkite_lite.Prelude.Text.strip letkite_lite.Prelude.Text.slice_from
web-IsSettled = record { has_user = refl; has_port = refl; id_reads = λ alias. refl }

abbrev two_files : Office
two_files =
    record (office_with (("n_0123456789", written_file) ∷ ("n_other", written_file) ∷ []) office) {
      watcher = record { mtime = 50; hosts = hosts };
    }

two_names : ◌≢◌ {A = String} "n_0123456789" "n_other"
two_names e =
    let same : false ≡ true = (eq_iff "n_0123456789" "n_other").1 e in ground (arith, same)

node_command-keeps_example :
    lookup "n_other"
      (node_command sha (λ s t. false) true 60 (rename "web" "front") two_files).1.disk.files
    ≡ lookup "n_other" two_files.disk.files
unfolding letkite_lite.Inventory.Files.watch letkite_lite.Inventory.Lookup.get node_id
node_command-keeps_example =
    node_command-keeps sha (λ s t. false) 60 true "web" web two_files "n_other"
      (rename "web" "front") refl refl web-IsSettled two_names

renamed : (node_command sha (λ s t. false) true 60 (rename "web" "front") two_files).0 ≡ done
unfolding node_command write_host letkite_lite.Inventory.Files.watch
    letkite_lite.Inventory.Lookup.get letkite_lite.Inventory.Host.valid_alias
    letkite_lite.Prelude.Text.strip node_id letkite_lite.Prelude.Text.slice_to
    letkite_lite.Prelude.Text.lower letkite_lite.Inventory.Host.valid_node_id
    letkite_lite.Prelude.Text.slice_from
renamed = refl
