-- ===== src/Ssh/Holders/Pins/Steps.antt =====
-- The gateway of src/vpsmcp/ssh as it runs: every step that opens, uses, closes or reaps, in any order, from the
-- empty gateway.
use letkite_lite.Prelude.{
  ℕ, suc, ◌-◌, ◌<◌, true, not, String, ◌==◌, ◌≡◌, refl, ◌∙◌, none, some, [], length, leb, ltb,
  Result, ok, err, Bool-cases, Option-cases, inl, inr, arith, ◌&&◌, ◌||◌, keep,
}
use letkite_lite.Dict.{lookup, keys_of}
use letkite_lite.Settings.{Settings}
use letkite_lite.Inventory.Host.{Host, node_id}
use letkite_lite.Inventory.Lookup.{Hosts}
use letkite_lite.Ssh.Pool.{Pool, Entry, Remote, SshError, reap}
use letkite_lite.Ssh.Pool.Reuse.{reap-spares}
use letkite_lite.Ssh.Pool.Pinned.{IsFit, acquire-Keeps}
use letkite_lite.Ssh.Pool.Pinned.Moves.{pins-reap, reap-Distinct, acquire-has_entry, has_entry}
use letkite_lite.Ssh.Holders.{
  Gateway, Opening, open_session, open_tunnel, open_log, connection, start_session, start_tunnel,
  start_log, live_on, close_session, close_tunnel, close_log, reap_sessions, reap_tunnels,
  session_over,
}
use letkite_lite.Ssh.Holders.Pins.{
  IsCounted, holders, with_pool, with_pool-IsCounted, hold_session, hold_tunnel, hold_log,
  close_session-IsCounted, close_tunnel-IsCounted, close_log-IsCounted, close_each-IsCounted,
}

module _ (x : Remote) (c : Settings) (hosts : Hosts) where
  start_session-IsCounted :
      (id : String) (now : ℕ) (h : Host) (o : Opening) (g : Gateway) (r : Result SshError ℕ × Pool)
      → lookup id g.sessions ≡ none
      → has_entry r.0 (lookup (node_id x.sha256 h) r.1) ≡ true
      → IsCounted (with_pool r.1 g)
      → IsCounted (start_session x c hosts id now h o g r).1
  start_session-IsCounted id now h o g (err e, pool) fresh there i = i
  start_session-IsCounted id now h o g (ok conn, pool) fresh there i = elim (Bool-cases o.starts) [
    | inl begun ↦
        rw begun (hold_session id (node_id x.sha256 h) (with_pool pool g) i there _ refl fresh)
    | inr failed ↦ rw failed i
  ]

  start_tunnel-IsCounted :
      (id : String) (now : ℕ) (h : Host) (port : ℕ) (o : Opening) (g : Gateway)
      (r : Result SshError ℕ × Pool)
      → lookup id g.tunnels ≡ none
      → has_entry r.0 (lookup (node_id x.sha256 h) r.1) ≡ true
      → IsCounted (with_pool r.1 g)
      → IsCounted (start_tunnel x c hosts id now h port o g r).1
  start_tunnel-IsCounted id now h port o g (err e, pool) fresh there i = i
  start_tunnel-IsCounted id now h port o g (ok conn, pool) fresh there i =
      elim (Bool-cases o.starts) [
        | inl begun ↦
            rw begun (hold_tunnel id (node_id x.sha256 h) (with_pool pool g) i there _ refl fresh)
        | inr failed ↦ rw failed i
      ]

  start_log-IsCounted :
      (id : String) (buffer_lines : ℕ) (h : Host) (o : Opening) (g : Gateway)
      (r : Result SshError ℕ × Pool)
      → lookup id g.subs ≡ none
      → has_entry r.0 (lookup (node_id x.sha256 h) r.1) ≡ true
      → IsCounted (with_pool r.1 g)
      → IsCounted (start_log x c hosts id buffer_lines h o g r).1
  start_log-IsCounted id buffer_lines h o g (err e, pool) fresh there i = i
  start_log-IsCounted id buffer_lines h o g (ok conn, pool) fresh there i =
      elim (Bool-cases o.starts) [
        | inl begun ↦
            rw begun (hold_log id (node_id x.sha256 h) (with_pool pool g) i there _ refl fresh)
        | inr failed ↦ rw failed i
      ]

  -- What `acquire` of the pool gives an `open`, in a gateway that is counted.
  connection-IsCounted :
      (now : ℕ) (h : Host) (g : Gateway)
      → IsCounted g
      → IsFit x g.pool
      → IsCounted (with_pool (connection x c hosts now h g).1 g)
  connection-IsCounted now h g i f =
      with_pool-IsCounted x _ g i
        (acquire-Keeps x c hosts now (suc (suc (length hosts))) [] h g.pool f)

  connection-has_entry :
      (now : ℕ) (h : Host) (g : Gateway)
      → (let r = connection x c hosts now h g in has_entry r.0 (lookup (node_id x.sha256 h) r.1))
        ≡ true
  connection-has_entry now h g =
      acquire-has_entry x c hosts now (suc (suc (length hosts))) [] h g.pool

-- One step. A step that asks the pool for a connection happens when no pinned connection has died, and a new
-- id, which the code makes of random bits, is in use nowhere.
pub data Step : Gateway → Gateway → Type 0 where
  session_opens :
      (x : Remote) (c : Settings) (hosts : Hosts) (max_per_host : ℕ) (id : String) (now : ℕ)
      (h : Host) (o : Opening) (g : Gateway)
      → IsFit x g.pool
      → lookup id g.sessions ≡ none
      → Step g (open_session x c hosts max_per_host id now h o g).1
  tunnel_opens :
      (x : Remote) (c : Settings) (hosts : Hosts) (max_tunnels : ℕ) (id : String) (now : ℕ)
      (h : Host) (port : ℕ) (o : Opening) (g : Gateway)
      → IsFit x g.pool
      → lookup id g.tunnels ≡ none
      → Step g (open_tunnel x c hosts max_tunnels id now h port o g).1
  log_opens :
      (x : Remote) (c : Settings) (hosts : Hosts) (max_subs buffer_lines : ℕ) (id : String)
      (now : ℕ) (h : Host) (path unit : String) (o : Opening) (g : Gateway)
      → IsFit x g.pool
      → lookup id g.subs ≡ none
      → Step g (open_log x c hosts max_subs buffer_lines id now h path unit o g).1
  -- a command that runs and holds nothing
  connection_used :
      (x : Remote) (c : Settings) (hosts : Hosts) (now : ℕ) (h : Host) (g : Gateway)
      → IsFit x g.pool
      → Step g (with_pool (connection x c hosts now h g).1 g)
  session_closes : (id : String) (g : Gateway) → Step g (close_session id g)
  tunnel_closes : (id : String) (g : Gateway) → Step g (close_tunnel id g)
  log_closes : (id : String) (g : Gateway) → Step g (close_log id g)
  sessions_reaped : (idle_ttl now : ℕ) (g : Gateway) → Step g (reap_sessions idle_ttl now g)
  tunnels_reaped : (ttl now : ℕ) (g : Gateway) → Step g (reap_tunnels ttl now g)
  pool_reaped : (ttl now : ℕ) (g : Gateway) → Step g (with_pool (reap ttl now g.pool).0 g)

Step-IsCounted : (g k : Gateway) → Step g k → IsCounted g → IsCounted k
unfolding open_session open_tunnel open_log reap_sessions reap_tunnels
Step-IsCounted _ _ (session_opens x c hosts max_per_host id now h o g f fresh) i =
    elim (Bool-cases
      (leb max_per_host (length (live_on x c hosts (node_id x.sha256 h) g.sessions)))) [
        | inl full ↦ rw full i
        | inr room ↦ rw room (
            start_session-IsCounted x c hosts id now h o g (connection x c hosts now h g) fresh
              (connection-has_entry x c hosts now h g) (connection-IsCounted x c hosts now h g i f))
      ]
Step-IsCounted _ _ (tunnel_opens x c hosts max_tunnels id now h port o g f fresh) i =
    elim (Bool-cases (leb max_tunnels (length g.tunnels))) [
      | inl full ↦ rw full i
      | inr room ↦ rw room (
          start_tunnel-IsCounted x c hosts id now h port o g (connection x c hosts now h g) fresh
            (connection-has_entry x c hosts now h g) (connection-IsCounted x c hosts now h g i f))
    ]
Step-IsCounted _ _ (log_opens x c hosts max_subs buffer_lines id now h path unit o g f fresh) i =
    elim (Bool-cases (leb max_subs (length (keep (λ e. not e.1.log.closed) g.subs)))) [
      | inl full ↦ rw full i
      | inr room ↦
          elim (Bool-cases ((path == "" && unit == "") || (not (path == "") && not (unit == "")))) [
            | inl unclear ↦ rw (room, unclear) i
            | inr clear ↦
                rw (room, clear)
                  (start_log-IsCounted x c hosts id buffer_lines h o g
                    (connection x c hosts now h g) fresh (connection-has_entry x c hosts now h g)
                    (connection-IsCounted x c hosts now h g i f))
          ]
    ]
Step-IsCounted _ _ (connection_used x c hosts now h g f) i =
    connection-IsCounted x c hosts now h g i f
Step-IsCounted _ _ (session_closes id g) i = close_session-IsCounted id g i
Step-IsCounted _ _ (tunnel_closes id g) i = close_tunnel-IsCounted id g i
Step-IsCounted _ _ (log_closes id g) i = close_log-IsCounted id g i
Step-IsCounted _ _ (sessions_reaped idle_ttl now g) i =
    close_each-IsCounted close_session
      (keys_of (keep (λ e. session_over idle_ttl now e.1) g.sessions)) g close_session-IsCounted i
Step-IsCounted _ _ (tunnels_reaped ttl now g) i =
    close_each-IsCounted close_tunnel (keys_of (keep (λ e. ltb ttl (now - e.1.created)) g.tunnels))
      g close_tunnel-IsCounted i
Step-IsCounted _ _ (pool_reaped ttl now g) i = record {
  counted = λ nid. pins-reap ttl now nid g.pool i.nodes ∙ i.counted nid;
  nodes = reap-Distinct ttl now g.pool i.nodes;
  session_ids = i.session_ids;
  tunnel_ids = i.tunnel_ids;
  sub_ids = i.sub_ids;
}

abbrev pub no_gateway : Gateway
no_gateway = record { pool = []; sessions = []; tunnels = []; subs = [] }

-- What the gateway can become.
pub data Reach : Gateway → Type 0 where
  start : Reach no_gateway
  then_step : (g k : Gateway) → Reach g → Step g k → Reach k

pub Reach-IsCounted : (g : Gateway) → Reach g → IsCounted g
unfolding lookup
Reach-IsCounted _ start = record {
  counted = λ nid. refl;
  nodes = tt;
  session_ids = tt;
  tunnel_ids = tt;
  sub_ids = tt;
}
Reach-IsCounted _ (then_step f g r s) = Step-IsCounted f g s (Reach-IsCounted f r)

-- Whatever the gateway has done, in whatever order: a node that a session, a tunnel or a log subscription
-- holds has a connection in the pool, its pins are exactly its holders, and a round of the reaper
-- leaves that connection, however long it was idle.
pub holders-connected :
    (g : Gateway) (nid : String) (ttl now : ℕ)
    → Reach g
    → 0 < holders nid g
    → (e : Entry) × (lookup nid g.pool ≡ some e)
      × (e.pinned ≡ holders nid g)
      × (lookup nid (reap ttl now g.pool).0 ≡ some e)
holders-connected g nid ttl now r held =
    let i = Reach-IsCounted g r in
    let counted = i.counted nid in
    elim (Option-cases (lookup nid g.pool)) [
      | inl missing ↦
          let none_pinned : 0 ≡ holders nid g = (rw missing at counted) in
          ground (arith, none_pinned, held)
      | inr (e, found) ↦
          let own : e.pinned ≡ holders nid g = (rw found at counted) in
          (e, found, own, reap-spares ttl now nid e g.pool found (ground (arith, own, held)))
    ]
