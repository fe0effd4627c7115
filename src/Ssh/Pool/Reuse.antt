-- ===== src/Ssh/Pool/Reuse.antt =====
-- When `SSHPool` of src/vpsmcp/ssh/pool.py reuses, replaces and closes a connection.
use letkite_lite.Prelude.{
  ℕ, suc, ◌+◌, ◌<◌, Bool, true, false, not, String, ◌==◌, ◌≡◌, refl, ap, ◌∙◌, some, List, [], ◌∷◌,
  keep, ok, Bool-cases, inl, inr, arith, All,
}
use letkite_lite.Dict.{lookup, put}
use letkite_lite.Settings.{Settings}
use letkite_lite.Inventory.Host.{Host, node_id}
use letkite_lite.Inventory.Lookup.{Hosts}
use letkite_lite.Ssh.Pool.{Entry, Pool, Remote, is_live, acquire, reap, is_idle}

lookup-keep :
    (p : String × Entry → Bool) (nid : String) (e : Entry) (pool : Pool)
    → ((k : String) → p (k, e) ≡ true)
    → lookup nid pool ≡ some e
    → lookup nid (keep p pool) ≡ some e
unfolding lookup
lookup-keep p nid e [] h found = ground arith
lookup-keep p nid e ((k, f) ∷ pool) h found = elim (Bool-cases (k == nid)) [
  | inl same ↦
      let here : some f ≡ some e = (rw same at found) in
      let own : f ≡ e = cc in rw (ap (λ g. p (k, g)) own ∙ h k, same, own) refl
  | inr other ↦
      let rest : lookup nid pool ≡ some e = (rw other at found) in
      elim (Bool-cases (p (k, f))) [
        | inl stays ↦ rw (stays, other) (lookup-keep p nid e pool h rest)
        | inr goes ↦ rw goes (lookup-keep p nid e pool h rest)
      ]
]

-- A round of the reaper leaves a pinned connection, and one that was used within the limit, as it is.
pub reap-spares :
    (ttl now : ℕ) (nid : String) (e : Entry) (pool : Pool)
    → lookup nid pool ≡ some e
    → is_idle ttl now e ≡ false
    → lookup nid (reap ttl now pool).0 ≡ some e
unfolding reap
reap-spares ttl now nid e pool found busy =
    lookup-keep (λ x. not (is_idle ttl now x.1)) nid e pool (λ k. ap not busy) found

-- Only connections that nothing has pinned and that were idle for more than the limit are closed.
pub reap-closes :
    (ttl now : ℕ) (pool : Pool)
    → All
        (λ e. (e.1.pinned ≡ 0) × (e.1.last_used + ttl < now))
        (keep (λ e. is_idle ttl now e.1) pool)
reap-closes ttl now [] = tt
reap-closes ttl now ((k, e) ∷ pool) = elim (Bool-cases (is_idle ttl now e)) [
  | inl idle ↦ rw idle ((ground (arith, idle), ground (arith, idle)), reap-closes ttl now pool)
  | inr busy ↦ rw busy (reap-closes ttl now pool)
]

-- A node with a live connection: `acquire` returns that connection, opens none, and changes nothing
-- but the entry's time of last use.
pub acquire-reuses :
    (x : Remote) (c : Settings) (hosts : Hosts) (now fuel : ℕ) (held : List String) (h : Host)
    (e : Entry) (pool : Pool)
    → lookup (node_id x.sha256 h) pool ≡ some e
    → x.dead e.conn ≡ false
    → acquire x c hosts now (suc fuel) held h pool
      ≡ (ok e.conn, put (node_id x.sha256 h) (record e { last_used = now }) pool)
unfolding acquire is_live
acquire-reuses x c hosts now fuel held h e pool found live = rw (found, live) refl
