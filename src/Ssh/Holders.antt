-- ===== src/Ssh/Holders.antt =====
-- What holds a connection: `SessionManager` of src/vpsmcp/ssh/session.py, `TunnelManager` of
-- src/vpsmcp/ssh/tunnels.py, and `open`, `close` and `get` of `LogManager` of src/vpsmcp/ssh/logs.py.
-- Each holder pins its node's entry in the pool. An `open` runs to its end before another begins.
pub mod Limits
pub mod Counting
pub mod Pins
use letkite_lite.Prelude.{
  ℕ, suc, ◌-◌, Bool, true, false, not, ◌&&◌, ◌||◌, String, ◌==◌, Option, none, some, List, [], ◌∷◌,
  keep, length, ltb, leb, if◌then◌else◌, Result, ok, err,
}
use letkite_lite.Dict.{lookup, put, remove, keys_of}
use letkite_lite.Settings.{Settings}
use letkite_lite.Inventory.Host.{Host, node_id}
use letkite_lite.Inventory.Lookup.{Hosts}
use letkite_lite.Ssh.Logs.{LogSub}
use letkite_lite.Ssh.Pool.{Pool, SshError, Remote, acquire, pin, unpin, close_pool}

pub record Session : Type 0 where
  pub alias : String
  pub node_id : String
  pub last_used : ℕ
  pub closed : Bool

pub record Tunnel : Type 0 where
  pub alias : String
  pub node_id : String
  pub remote_port : ℕ
  pub local_port : ℕ
  pub created : ℕ

pub record Subscription : Type 0 where
  pub alias : String
  pub node_id : String
  pub log : LogSub

pub record Gateway : Type 0 where
  pub pool : Pool
  pub sessions : List (String × Session)
  pub tunnels : List (String × Tunnel)
  pub subs : List (String × Subscription)

pub data HolderError : Type 0 where
  limit_reached : HolderError
  provide_path_or_unit : HolderError
  not_found : String → HolderError
  ssh : SshError → HolderError
  -- the process or the listener cannot be created, or the session's first command fails
  start_failed : HolderError

-- What the far end does for one `open`.
pub record Opening : Type 0 where
  -- the process or the listener is created
  pub starts : Bool
  -- the first command of a session succeeds; if not, it ends the session
  pub boots : Bool
  pub local_port : ℕ

module _ (x : Remote) (c : Settings) (hosts : Hosts) where
  -- One jump more than there are hosts comes back to a node whose lock is held.
  abbrev pub connection : ℕ → Host → Gateway → Result SshError ℕ × Pool
  connection now h g = acquire x c hosts now (suc (suc (length hosts))) [] h g.pool

  abbrev live_on : String → List (String × Session) → List (String × Session)
  live_on nid sessions = keep (λ e. e.1.node_id == nid && not e.1.closed) sessions

  abbrev start_session :
      String
      → ℕ
      → Host
      → Opening
      → Gateway
      → Result SshError ℕ × Pool
      → Result HolderError String × Gateway
  start_session id now h o g (err e, pool) = (err (ssh e), record g { pool = pool })
  start_session id now h o g (ok conn, pool) =
      let nid = node_id x.sha256 h in
      let session : Session = record {
        alias = h.alias;
        node_id = nid;
        last_used = now;
        closed = not o.boots;
      } in
      if o.starts
      then (
        if o.boots then ok id else err start_failed,
        record g { pool = pin nid pool; sessions = put id session g.sessions },
      )
      else (err start_failed, record g { pool = pool })

  unfoldable pub open_session :
      ℕ → String → ℕ → Host → Opening → Gateway → Result HolderError String × Gateway
  open_session max_per_host id now h o g =
      if leb max_per_host (length (live_on (node_id x.sha256 h) g.sessions))
      then (err limit_reached, g)
      else start_session id now h o g (connection now h g)

  abbrev pub start_tunnel :
      String
      → ℕ
      → Host
      → ℕ
      → Opening
      → Gateway
      → Result SshError ℕ × Pool
      → Result HolderError String × Gateway
  start_tunnel id now h port o g (err e, pool) = (err (ssh e), record g { pool = pool })
  start_tunnel id now h port o g (ok conn, pool) =
      let nid = node_id x.sha256 h in
      let tunnel : Tunnel = record {
        alias = h.alias;
        node_id = nid;
        remote_port = port;
        local_port = o.local_port;
        created = now;
      } in
      if o.starts
      then (ok id, record g { pool = pin nid pool; tunnels = put id tunnel g.tunnels })
      else (err start_failed, record g { pool = pool })

  unfoldable pub open_tunnel :
      ℕ → String → ℕ → Host → ℕ → Opening → Gateway → Result HolderError String × Gateway
  open_tunnel max_tunnels id now h port o g =
      if leb max_tunnels (length g.tunnels)
      then (err limit_reached, g)
      else start_tunnel id now h port o g (connection now h g)

  abbrev empty_log : ℕ → LogSub
  empty_log maxlen = record { maxlen = maxlen; buf = []; seq = 0; dropped = 0; closed = false }

  abbrev start_log :
      String
      → ℕ
      → Host
      → Opening
      → Gateway
      → Result SshError ℕ × Pool
      → Result HolderError String × Gateway
  start_log id buffer_lines h o g (err e, pool) = (err (ssh e), record g { pool = pool })
  start_log id buffer_lines h o g (ok conn, pool) =
      let nid = node_id x.sha256 h in
      let sub : Subscription = record {
        alias = h.alias;
        node_id = nid;
        log = empty_log buffer_lines;
      } in
      if o.starts
      then (ok id, record g { pool = pin nid pool; subs = put id sub g.subs })
      else (err start_failed, record g { pool = pool })

  -- The pattern is valid, and the command that is sent is left out.
  unfoldable pub open_log :
      ℕ
      → ℕ
      → String
      → ℕ
      → Host
      → String
      → String
      → Opening
      → Gateway
      → Result HolderError String × Gateway
  open_log max_subs buffer_lines id now h path unit o g =
      if leb max_subs (length (keep (λ e. not e.1.log.closed) g.subs))
      then (err limit_reached, g)
      else if (path == "" && unit == "") || (not (path == "") && not (unit == ""))
      then (err provide_path_or_unit, g)
      else start_log id buffer_lines h o g (connection now h g)

abbrev live_or : String → Option Session → Result HolderError Session
live_or id none = err (not_found id)
live_or id (some s) = if s.closed then err (not_found id) else ok s

unfoldable pub get_session : String → Gateway → Result HolderError Session
get_session id g = live_or id (lookup id g.sessions)

abbrev found_or_not {ℓ} : {A : Type ℓ} → String → Option A → Result HolderError A
found_or_not id none = err (not_found id)
found_or_not id (some a) = ok a

unfoldable pub get_tunnel : String → Gateway → Result HolderError Tunnel
get_tunnel id g = found_or_not id (lookup id g.tunnels)

unfoldable pub get_log : String → Gateway → Result HolderError Subscription
get_log id g = found_or_not id (lookup id g.subs)

abbrev drop_session_of : String → Option Session → Gateway → Gateway
drop_session_of id none g = g
drop_session_of id (some s) g = record g {
  sessions = remove id g.sessions;
  pool = unpin s.node_id g.pool;
}

unfoldable pub close_session : String → Gateway → Gateway
close_session id g = drop_session_of id (lookup id g.sessions) g

abbrev drop_tunnel_of : String → Option Tunnel → Gateway → Gateway
drop_tunnel_of id none g = g
drop_tunnel_of id (some t) g = record g {
  tunnels = remove id g.tunnels;
  pool = unpin t.node_id g.pool;
}

unfoldable pub close_tunnel : String → Gateway → Gateway
close_tunnel id g = drop_tunnel_of id (lookup id g.tunnels) g

abbrev drop_log_of : String → Option Subscription → Gateway → Gateway
drop_log_of id none g = g
drop_log_of id (some s) g = record g { subs = remove id g.subs; pool = unpin s.node_id g.pool }

unfoldable pub close_log : String → Gateway → Gateway
close_log id g = drop_log_of id (lookup id g.subs) g

abbrev close_each : (String → Gateway → Gateway) → List String → Gateway → Gateway
close_each close [] g = g
close_each close (id ∷ ids) g = close_each close ids (close id g)

abbrev session_over : ℕ → ℕ → Session → Bool
session_over idle_ttl now s = s.closed || ltb idle_ttl (now - s.last_used)

-- `SessionManager.reap`
unfoldable pub reap_sessions : ℕ → ℕ → Gateway → Gateway
unfolding close_session
reap_sessions idle_ttl now g =
    close_each close_session (keys_of (keep (λ e. session_over idle_ttl now e.1) g.sessions)) g

-- `TunnelManager.reap`
unfoldable pub reap_tunnels : ℕ → ℕ → Gateway → Gateway
unfolding close_tunnel
reap_tunnels ttl now g =
    close_each close_tunnel (keys_of (keep (λ e. ltb ttl (now - e.1.created)) g.tunnels)) g

-- `close_all` of the three managers, in the order of `Runtime.stop`.
unfoldable pub close_all : Gateway → Gateway
unfolding close_session close_tunnel close_log
close_all g =
    let g1 = close_each close_log (keys_of g.subs) g in
    let g2 = close_each close_tunnel (keys_of g1.tunnels) g1 in
    close_each close_session (keys_of g2.sessions) g2

-- One round of `Runtime._reap_loop`.
unfoldable pub reap_round : ℕ → ℕ → ℕ → Gateway → Gateway
unfolding reap_sessions reap_tunnels
reap_round idle_ttl ttl now g = reap_tunnels ttl now (reap_sessions idle_ttl now g)

-- `Runtime.stop`, with the connections that it closes.
unfoldable pub stop : Gateway → Gateway × List ℕ
unfolding close_all close_pool
stop g =
    let g1 = close_all g in
    let (pool, closed) = close_pool g1.pool in (record g1 { pool = pool }, closed)
