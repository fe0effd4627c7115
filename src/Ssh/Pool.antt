-- ===== src/Ssh/Pool.antt =====
-- `SSHPool` of src/vpsmcp/ssh/pool.py: one connection per node, reused, pinned while something holds
-- it, and closed when idle. A connection is a number. One task runs at a time: waiting for another
-- task's lock is not modelled, a call that waits for its own
-- never returns, which is the value `waits_forever`.
pub mod Reuse
pub mod Ending
pub mod Pinned
use Prim.Native.String
use letkite_lite.Prelude.{
  ℕ, zero, suc, ◌+◌, ◌-◌, Bool, true, false, not, ◌&&◌, String, ◌==◌, Option, none, some, List, [],
  ◌∷◌, map, keep, mem, ltb, eqb, if◌then◌else◌, Result, ok, err, ◌>>=◌, non_empty,
}
use letkite_lite.Prelude.Text.{strip}
use letkite_lite.Dict.{lookup, put, remove}
use letkite_lite.Settings.{Settings}
use letkite_lite.Inventory.Host.{Host, node_id, decimal}
use letkite_lite.Inventory.HostKey.{valid_host_key}
use letkite_lite.Inventory.Lookup.{InventoryError, Hosts, get}

pub record Entry : Type 0 where
  pub conn : ℕ
  pub alias : String
  pub created : ℕ
  pub last_used : ℕ
  pub pinned : ℕ

abbrev pub Pool : Type 0
Pool = List (String × Entry)

pub data SshError : Type 0 where
  bad_host_key : String → SshError
  no_known_hosts : SshError
  key_unusable : SshError
  cannot_connect : String → SshError
  -- `Inventory.get` raises for the jump host
  inventory : InventoryError → SshError
  -- no error of the code: the call never returns, since the task waits for a lock that it holds itself
  waits_forever : String → SshError
  out_of_fuel : SshError

-- What a connection's host keys are checked against.
pub data KnownHosts : Type 0 where
  document : String → KnownHosts
  file : KnownHosts
  unchecked : KnownHosts

pub record Remote : Type 0 where
  -- conn.is_closed()
  pub dead : ℕ → Bool
  -- the private key of `_client_keys` can be read
  pub has_key : Host → Bool
  -- the known_hosts file is there
  pub has_known_hosts : Bool
  pub b64decode : String → Option (List ℕ)
  pub sha256 : String → String
  -- asyncssh.connect through a tunnel, if there is one; none where it raises or times out
  pub dial : Host → KnownHosts → Option ℕ → Option ℕ

-- f"[{address}]:{port} {key}\n{address} {key}\n"
abbrev document_for : Host → String → String
document_for h key =
    let line = String.◌++◌ " " (String.◌++◌ key "\n") in
    String.◌++◌ "[" (
      String.◌++◌ h.address (
        String.◌++◌ "]:"
          (String.◌++◌ (decimal h.port) (String.◌++◌ line (String.◌++◌ h.address line)))))

abbrev unpinned_hosts : Remote → Settings → Result SshError KnownHosts
unpinned_hosts x c =
    if c.strict_host_keys
    then if x.has_known_hosts then ok file else err no_known_hosts
    else ok unchecked

abbrev pinned_hosts : Remote → Settings → Host → String → Result SshError KnownHosts
pinned_hosts x c h key =
    if key == ""
    then unpinned_hosts x c
    else if valid_host_key x.b64decode (strip key)
    then ok (document (document_for h (strip key)))
    else err (bad_host_key h.alias)

abbrev pub or_empty : Option String → String
or_empty none = ""
or_empty (some s) = s

unfoldable pub known_hosts : Remote → Settings → Host → Result SshError KnownHosts
known_hosts x c h = pinned_hosts x c h (or_empty h.host_key)

unfoldable pub is_live : Remote → Option Entry → Bool
is_live x none = false
is_live x (some e) = not (x.dead e.conn)

abbrev touch : ℕ → Option Entry → String → Pool → Result SshError ℕ × Pool
touch now none nid pool = (err out_of_fuel, pool)
touch now (some e) nid pool = (ok e.conn, put nid (record e { last_used = now }) pool)

abbrev store_conn : Host → String → ℕ → Option ℕ → Pool → Result SshError ℕ × Pool
store_conn h nid now none pool = (err (cannot_connect h.alias), pool)
store_conn h nid now (some conn) pool =
    let entry : Entry = record {
      conn = conn;
      alias = h.alias;
      created = now;
      last_used = now;
      pinned = 0;
    } in
    (ok conn, put nid entry pool)

abbrev connect_checked :
    Remote
    → Host
    → String
    → ℕ
    → Option ℕ
    → Result SshError KnownHosts
    → Pool
    → Result SshError ℕ × Pool
connect_checked x h nid now tunnel (err e) pool = (err e, pool)
connect_checked x h nid now tunnel (ok known) pool =
    store_conn h nid now (x.dial h known tunnel) pool

-- `_connect` after the tunnel is there, and storing its result.
abbrev connect_through :
    Remote
    → Settings
    → Host
    → String
    → ℕ
    → Result SshError (Option ℕ) × Pool
    → Result SshError ℕ × Pool
connect_through x c h nid now (err e, pool) = (err e, pool)
connect_through x c h nid now (ok tunnel, pool) =
    if x.has_key h
    then connect_checked x h nid now tunnel (known_hosts x c h) pool
    else (err key_unusable, pool)

abbrev as_tunnel : Result SshError ℕ × Pool → Result SshError (Option ℕ) × Pool
as_tunnel (err e, pool) = (err e, pool)
as_tunnel (ok conn, pool) = (ok (some conn), pool)

abbrev jump_to :
    (Host → Pool → Result SshError ℕ × Pool)
    → Result InventoryError Host
    → Pool
    → Result SshError (Option ℕ) × Pool
jump_to next (err e) pool = (err (inventory e), pool)
jump_to next (ok host) pool = as_tunnel (next host pool)

abbrev tunnel_for :
    (Host → Pool → Result SshError ℕ × Pool)
    → Hosts
    → String
    → Pool
    → Result SshError (Option ℕ) × Pool
tunnel_for next hosts jump pool =
    if jump == "" then (ok none, pool) else jump_to next (get jump hosts) pool

-- `held` are the nodes whose locks this task holds.
unfoldable pub acquire :
    Remote → Settings → Hosts → ℕ → ℕ → List String → Host → Pool → Result SshError ℕ × Pool
unfolding is_live known_hosts
acquire x c hosts now zero held h pool = (err out_of_fuel, pool)
acquire x c hosts now (suc fuel) held h pool =
    let nid = node_id x.sha256 h in
    let entry = lookup nid pool in
    let next = acquire x c hosts now fuel (nid ∷ held) in
    if is_live x entry
    then touch now entry nid pool
    else if mem nid held
    then (err (waits_forever nid), pool)
    else connect_through x c h nid now (tunnel_for next hosts (or_empty h.jump) (remove nid pool))

abbrev set_pinned : (ℕ → ℕ) → Option Entry → String → Pool → Pool
set_pinned f none nid pool = pool
set_pinned f (some e) nid pool = put nid (record e { pinned = f e.pinned }) pool

unfoldable pub pin : String → Pool → Pool
pin nid pool = set_pinned suc (lookup nid pool) nid pool

-- A count of 0 stays 0, as the guard `e.pinned > 0` has it.
unfoldable pub unpin : String → Pool → Pool
unpin nid pool = set_pinned (λ n. n - 1) (lookup nid pool) nid pool

abbrev pub is_idle : ℕ → ℕ → Entry → Bool
is_idle ttl now e = if ltb 0 e.pinned then false else ltb ttl (now - e.last_used)

-- One round of `_reap_loop`: what stays, and the connections that are closed.
unfoldable pub reap : ℕ → ℕ → Pool → Pool × List ℕ
reap ttl now pool = (
  keep (λ e. not (is_idle ttl now e.1)) pool,
  map (λ e. e.1.conn) (keep (λ e. is_idle ttl now e.1) pool),
)

-- `SSHPool.close`: no connection stays, and all are closed.
unfoldable pub close_pool : Pool → Pool × List ℕ
close_pool pool = ([], map (λ e. e.1.conn) pool)
