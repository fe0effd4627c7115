-- ===== src/Ssh/Holders/Pins.antt =====
-- The sessions, tunnels and log subscriptions of src/vpsmcp/ssh against the pins of the pool: the steps of the
-- gateway, in any order, and what they keep.
pub mod Steps
use letkite_lite.Prelude.{
  ℕ, zero, suc, ◌+◌, ◌-◌, ◌<◌, Bool, true, false, not, String, ◌==◌, ◌≡◌, refl, sym, ap, ◌∙◌,
  Option, none, some, List, [], ◌∷◌, length, leb, Result, ok, err, Bool-cases, Option-cases, inl,
  inr, arith, if◌then◌else◌, is_some, ◌&&◌, ◌||◌, keep,
}
use letkite_lite.Dict.{lookup, put, remove, Distinct, put-Distinct, keep-Distinct}
use letkite_lite.Settings.{Settings}
use letkite_lite.Inventory.Host.{Host, node_id}
use letkite_lite.Inventory.Lookup.{Hosts}
use letkite_lite.Ssh.Pool.{Pool, Entry, Remote, SshError, reap, is_idle, pin, unpin, acquire}
use letkite_lite.Ssh.Pool.Pinned.{pins, IsFit, Keeps, acquire-Keeps}
use letkite_lite.Ssh.Pool.Pinned.Moves.{
  pins-pin, pins-unpin, pin-Distinct, unpin-Distinct, pins-reap, reap-Distinct, acquire-has_entry,
  has_entry,
}
use letkite_lite.Ssh.Holders.{
  Gateway, Session, Tunnel, Subscription, Opening, open_session, open_tunnel, open_log, connection,
  start_session, start_tunnel, start_log, live_on, close_session, close_tunnel, close_log,
  drop_session_of, drop_tunnel_of, drop_log_of, close_each, reap_sessions, reap_tunnels,
}
use letkite_lite.Ssh.Holders.Counting.{count, adds, count-put, count-remove}

abbrev session_owner : Session → String
session_owner s = s.node_id

abbrev tunnel_owner : Tunnel → String
tunnel_owner t = t.node_id

abbrev sub_owner : Subscription → String
sub_owner s = s.node_id

-- How many sessions, tunnels and log subscriptions hold a connection to the node.
abbrev pub holders : String → Gateway → ℕ
holders nid g =
    count session_owner nid g.sessions
    + count tunnel_owner nid g.tunnels
    + count sub_owner nid g.subs

-- The pins of each node are its holders.
pub record IsCounted (g : Gateway) : Type 0 where
  pub counted : (nid : String) → pins nid g.pool ≡ holders nid g
  pub nodes : Distinct g.pool
  pub session_ids : Distinct g.sessions
  pub tunnel_ids : Distinct g.tunnels
  pub sub_ids : Distinct g.subs

-- What the pool becomes, if nobody's pins change.
abbrev with_pool : Pool → Gateway → Gateway
with_pool pool g = record g { pool = pool }

with_pool-IsCounted :
    (x : Remote) (pool : Pool) (g : Gateway)
    → IsCounted g
    → Keeps x g.pool pool
    → IsCounted (with_pool pool g)
with_pool-IsCounted x pool g i k = record {
  counted = λ nid. k.same nid ∙ i.counted nid;
  nodes = k.fit.distinct;
  session_ids = i.session_ids;
  tunnel_ids = i.tunnel_ids;
  sub_ids = i.sub_ids;
}

module _ (id nid : String) (g : Gateway) (i : IsCounted g)
    (there : is_some (lookup nid g.pool) ≡ true) where
  -- A holder with a new id, and its pin.
  hold_session :
      (s : Session)
      → s.node_id ≡ nid
      → lookup id g.sessions ≡ none
      → IsCounted (record g { pool = pin nid g.pool; sessions = put id s g.sessions })
  hold_session s own fresh = record {
    counted = λ j. omega (
      arith,
      pins-pin j nid g.pool there,
      i.counted j,
      count-put session_owner j id s g.sessions fresh,
      ap {B = ℕ} (λ k. if k == j then 1 else 0) own,
    );
    nodes = pin-Distinct nid g.pool i.nodes;
    session_ids = put-Distinct id s g.sessions i.session_ids;
    tunnel_ids = i.tunnel_ids;
    sub_ids = i.sub_ids;
  }

  hold_tunnel :
      (t : Tunnel)
      → t.node_id ≡ nid
      → lookup id g.tunnels ≡ none
      → IsCounted (record g { pool = pin nid g.pool; tunnels = put id t g.tunnels })
  hold_tunnel t own fresh = record {
    counted = λ j. omega (
      arith,
      pins-pin j nid g.pool there,
      i.counted j,
      count-put tunnel_owner j id t g.tunnels fresh,
      ap {B = ℕ} (λ k. if k == j then 1 else 0) own,
    );
    nodes = pin-Distinct nid g.pool i.nodes;
    session_ids = i.session_ids;
    tunnel_ids = put-Distinct id t g.tunnels i.tunnel_ids;
    sub_ids = i.sub_ids;
  }

  hold_log :
      (s : Subscription)
      → s.node_id ≡ nid
      → lookup id g.subs ≡ none
      → IsCounted (record g { pool = pin nid g.pool; subs = put id s g.subs })
  hold_log s own fresh = record {
    counted = λ j. omega (
      arith,
      pins-pin j nid g.pool there,
      i.counted j,
      count-put sub_owner j id s g.subs fresh,
      ap {B = ℕ} (λ k. if k == j then 1 else 0) own,
    );
    nodes = pin-Distinct nid g.pool i.nodes;
    session_ids = i.session_ids;
    tunnel_ids = i.tunnel_ids;
    sub_ids = put-Distinct id s g.subs i.sub_ids;
  }

-- `close` of the three managers.
close_session-IsCounted : (id : String) (g : Gateway) → IsCounted g → IsCounted (close_session id g)
unfolding close_session remove
close_session-IsCounted id g i = elim (Option-cases (lookup id g.sessions)) [
  | inl missing ↦ rw missing i
  | inr (s, found) ↦ rw found record {
    counted = λ j. omega (
      arith,
      pins-unpin j s.node_id g.pool,
      i.counted j,
      count-remove session_owner j id s g.sessions i.session_ids found,
    );
    nodes = unpin-Distinct s.node_id g.pool i.nodes;
    session_ids = keep-Distinct (λ e. not (e.0 == id)) g.sessions i.session_ids;
    tunnel_ids = i.tunnel_ids;
    sub_ids = i.sub_ids;
  }
]

close_tunnel-IsCounted : (id : String) (g : Gateway) → IsCounted g → IsCounted (close_tunnel id g)
unfolding close_tunnel remove
close_tunnel-IsCounted id g i = elim (Option-cases (lookup id g.tunnels)) [
  | inl missing ↦ rw missing i
  | inr (t, found) ↦ rw found record {
    counted = λ j. omega (
      arith,
      pins-unpin j t.node_id g.pool,
      i.counted j,
      count-remove tunnel_owner j id t g.tunnels i.tunnel_ids found,
    );
    nodes = unpin-Distinct t.node_id g.pool i.nodes;
    session_ids = i.session_ids;
    tunnel_ids = keep-Distinct (λ e. not (e.0 == id)) g.tunnels i.tunnel_ids;
    sub_ids = i.sub_ids;
  }
]

close_log-IsCounted : (id : String) (g : Gateway) → IsCounted g → IsCounted (close_log id g)
unfolding close_log remove
close_log-IsCounted id g i = elim (Option-cases (lookup id g.subs)) [
  | inl missing ↦ rw missing i
  | inr (s, found) ↦ rw found record {
    counted = λ j. omega (
      arith,
      pins-unpin j s.node_id g.pool,
      i.counted j,
      count-remove sub_owner j id s g.subs i.sub_ids found,
    );
    nodes = unpin-Distinct s.node_id g.pool i.nodes;
    session_ids = i.session_ids;
    tunnel_ids = i.tunnel_ids;
    sub_ids = keep-Distinct (λ e. not (e.0 == id)) g.subs i.sub_ids;
  }
]

close_each-IsCounted :
    (close : String → Gateway → Gateway) (ids : List String) (g : Gateway)
    → ((id : String) (g : Gateway) → IsCounted g → IsCounted (close id g))
    → IsCounted g
    → IsCounted (close_each close ids g)
close_each-IsCounted close [] g step i = i
close_each-IsCounted close (id ∷ ids) g step i =
    close_each-IsCounted close ids (close id g) step (step id g i)
