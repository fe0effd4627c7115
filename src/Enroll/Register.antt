-- ===== src/Enroll/Register.antt =====
-- `register` and `deregister` of src/vpsmcp/enroll.py.
pub mod Probed
pub mod Verified
pub mod Guarded
use Prim.Native.String
use Prim.Native.String.{[], ◌∷◌}
use Prim.Native.Char.{Char, code}
use mathlib.Core.List
use letkite_lite.Prelude.{
  ℕ, suc, Bool, true, false, not, ◌&&◌, ◌||◌, String, ◌==◌, Option, none, some, List, keep, take,
  length, eqb, leb, ltb, if◌then◌else◌, non_empty, Result, ok, err,
}
use letkite_lite.Prelude.Text.{strip, words, slice_to}
use letkite_lite.Net.{Source, client_ip}
use letkite_lite.Settings.{Settings}
use letkite_lite.Inventory.Host.{Host, node_id_of, is_alnum}
use letkite_lite.Inventory.HostKey.{valid_host_key}
use letkite_lite.Inventory.Lookup.{InventoryError, Hosts, get}
use letkite_lite.Inventory.Files.{HostDoc, Files, Disk, Watcher, write_host, remove_host, watch}
use letkite_lite.Ssh.Pool.{Remote, Pool, SshError, acquire}
use letkite_lite.Ssh.Runner.{Process, ExecResult, ExitCode, exited, minus_one, run_command}
use letkite_lite.Enroll.Store.{EnrollStore, pend, succeeded, seen}
use letkite_lite.Enroll.Gate.{Addresses, Visit, Denial, gate}

-- The port of the document: `port or 22`, as `int` reads it.
pub data PortField : Type 0 where
  absent : PortField
  unreadable : PortField
  negative : PortField
  number : ℕ → PortField

-- The fields as texts, empty where they are missing or false.
pub record Fields : Type 0 where
  pub host_key : String
  pub alias : String
  pub user : String
  pub port : PortField
  pub tags : String
  pub hostname : String
  pub os : String
  pub arch : String

-- The body, if it is a JSON object; another JSON value is not modelled.
pub data Body : Type 0 where
  malformed : Body
  fields : Fields → Body

pub data Event : Type 0 where
  denied : String → Denial → Event
  pending : String → Event
  failed_event : String → Event
  ok_event : String → String → Event
  deregistered : String → Bool → Event

pub record World : Type 0 where
  pub store : EnrollStore
  pub disk : Disk
  pub watcher : Watcher
  pub pool : Pool
  pub audit : List Event

pub data Response : Type 0 where
  forbidden : Denial → Response
  bad_request : String → Response
  -- the host waits for an approval
  waits : String → Response
  unreachable : Response
  enrolled : String → String → Response
  -- `write_host` raises, and the server answers 500
  raised : InventoryError → Response
  removed : Bool → Response

-- What the code calls: `probe` is the process of `id -un` on a connection, none where it raises.
pub record Outside : Type 0 where
  pub remote : Remote
  pub addresses : Addresses
  pub before : String → String → Bool
  pub decode : List ℕ → String
  pub writable : Bool
  pub probe : ℕ → Option Process

abbrev is_name_char : Char → Bool
is_name_char c = is_alnum (code c) || eqb (code c) b'.' || eqb (code c) b'_' || eqb (code c) b'-'

-- re.sub(r"[^A-Za-z0-9._-]", "-", s)
abbrev dashed : String → String
dashed [] = []
dashed (c ∷ s) = if is_name_char c then c ∷ dashed s else String.◌++◌ "-" (dashed s)

-- re.sub(r"[^A-Za-z0-9._-]", "", s)
abbrev name_chars : String → String
name_chars [] = []
name_chars (c ∷ s) = if is_name_char c then c ∷ name_chars s else name_chars s

abbrev pub text_or : String → String → String
text_or d s = if s == "" then d else s

unfoldable pub alias_of : String → String
alias_of s = text_or "node" (slice_to 64 (dashed (text_or "node" s)))

unfoldable pub user_of : Settings → String → String
user_of c s = slice_to 32 (name_chars (text_or c.enroll_user s))

unfoldable pub port_of : PortField → ℕ
port_of absent = 22
port_of unreadable = 22
port_of negative = 22
port_of (number n) = if ltb 0 n && ltb n 65536 then n else 22

abbrev commas_to_spaces : String → String
commas_to_spaces [] = []
commas_to_spaces (c ∷ s) =
    let rest = commas_to_spaces s in if eqb (code c) b',' then String.◌++◌ " " rest else c ∷ rest

-- [t for t in re.split(r"[,\s]+", s) if t][:16]
unfoldable pub tags_of : String → List String
tags_of s = take 16 (words (commas_to_spaces s))

-- " · ".join(parts)
abbrev join_dots : List String → String
join_dots List.[] = ""
join_dots (List.◌∷◌ p List.[]) = p
join_dots (List.◌∷◌ p (List.◌∷◌ q ps)) =
    String.◌++◌ p (String.◌++◌ " · " (join_dots (List.◌∷◌ q ps)))

unfoldable pub doc_of : Settings → String → String → Fields → HostDoc
unfolding alias_of user_of port_of tags_of
doc_of c ip host_key f = record {
  alias = alias_of f.alias;
  address = ip;
  port = port_of f.port;
  user = user_of c f.user;
  host_key = host_key;
  tags = tags_of f.tags;
  scopes = c.enroll_scopes;
  sudo = false;
  notes =
      join_dots (keep non_empty (List.◌∷◌ f.hostname (List.◌∷◌ f.os (List.◌∷◌ f.arch List.[]))));
  node_id = none;
}

abbrev log : Event → World → World
log e w = record w { audit = List.◌∷◌ e w.audit }

abbrev with_files : Files → World → World
with_files files w = record w { disk = record w.disk { files = files } }

-- Whether the probe's command ended with 0.
abbrev is_zero : ExitCode → Bool
is_zero minus_one = false
is_zero (exited rc) = eqb rc 0

abbrev probe_ok : (List ℕ → String) → Option Process → Bool
probe_ok decode none = false
probe_ok decode (some p) = is_zero (run_command decode 2048 p).exit_code

abbrev command_ok : Outside → Result SshError ℕ × Pool → World → Bool × World
command_ok x (err e, pool) w = (false, record w { pool = pool })
command_ok x (ok conn, pool) w = (probe_ok x.decode (x.probe conn), record w { pool = pool })

abbrev host_ok : Outside → Settings → ℕ → Result InventoryError Host → World → Bool × World
host_ok x c now (err e) w = (false, w)
host_ok x c now (ok h) w =
    let hosts = w.watcher.hosts in
    command_ok x (acquire x.remote c hosts now (suc (suc (length hosts))) List.[] h w.pool) w

abbrev watched_ok :
    Outside → Settings → ℕ → String → Result InventoryError Watcher → World → Bool × World
watched_ok x c now nid (err e) w = (false, w)
watched_ok x c now nid (ok watcher) w =
    host_ok x c now (get nid watcher.hosts) (record w { watcher = watcher })

-- The `try` of `register`: the host is found, a connection is made and the command succeeds.
unfoldable pub probe : Outside → Settings → ℕ → String → World → Bool × World
unfolding get watch acquire run_command
probe x c now nid w = watched_ok x c now nid (watch x.remote.sha256 x.before w.disk w.watcher) w

abbrev verdict : ℕ → String → HostDoc → Bool × World → Response × World
verdict now nid doc (false, w) =
    (unreachable, log (failed_event nid) (with_files (remove_host nid w.disk.files).1 w))
verdict now nid doc (true, w) =
    let store =
      seen now nid doc.address doc.user doc.port doc.alias (succeeded doc.address w.store) in
    (enrolled nid doc.alias, log (ok_event nid doc.alias) (record w { store = store }))

abbrev written :
    Outside
    → Settings
    → ℕ
    → String
    → HostDoc
    → Result InventoryError (String × Files)
    → World
    → Response × World
written x c now nid doc (err e) w = (raised e, w)
written x c now nid doc (ok (name, files)) w =
    verdict now nid doc (probe x c now nid (with_files files w))

-- The end of `register`, with the host it has made.
unfoldable pub register_host : Outside → Settings → ℕ → HostDoc → World → Response × World
unfolding write_host remove_host probe pend
register_host x c now doc w =
    let nid = node_id_of x.remote.sha256 doc.address doc.port doc.user in
    if c.enroll_mode == "approve"
    then (waits nid, log (pending nid) (record w { store = pend now nid doc w.store }))
    else written x c now nid doc (write_host x.remote.sha256 x.writable now doc w.disk.files) w

abbrev register_fields : Outside → Settings → ℕ → String → Body → World → Response × World
register_fields x c now ip malformed w = (bad_request "malformed request", w)
register_fields x c now ip (fields f) w =
    let host_key = strip f.host_key in
    if not (valid_host_key x.remote.b64decode host_key)
    then (bad_request "bad host key format", w)
    else if ip == ""
    then (bad_request "cannot determine source address", w)
    else register_host x c now (doc_of c ip host_key f) w

abbrev register_gated :
    Outside → Settings → ℕ → String → Body → Option Denial → World → Response × World
register_gated x c now ip body (some d) w = (forbidden d, log (denied ip d) w)
register_gated x c now ip body none w = register_fields x c now ip body w

unfoldable pub register : Outside → Settings → ℕ → Visit → Body → World → Response × World
unfolding gate register_host doc_of
register x c now v body w =
    let ip = client_ip v.source c.trusted_proxy_hops in
    let (deny, store) = gate x.addresses c now v w.store in
    register_gated x c now ip body deny (record w { store = store })

abbrev leaver : Settings → Body → String × ℕ
leaver c malformed = (c.enroll_user, 22)
leaver c (fields f) = (text_or c.enroll_user f.user, port_of f.port)

-- The user is not reduced to the characters that `register` keeps.
unfoldable pub deregister : Outside → Settings → Visit → Body → World → Response × World
unfolding remove_host port_of
deregister x c v body w =
    let ip = client_ip v.source c.trusted_proxy_hops in
    let (user, port) = leaver c body in
    let nid = node_id_of x.remote.sha256 ip port user in
    let (was_there, files) = remove_host nid w.disk.files in
    (removed was_there, log (deregistered nid was_there) (with_files files w))
