-- ===== src/Ssh/Pool/Pinned/Moves.antt =====
-- `pin`, `unpin` and the reaper of src/vpsmcp/ssh/pool.py on the pin counts, and that `acquire` leaves an entry
-- for the node whose connection it returns.
use letkite_lite.Prelude.{
  ℕ, zero, suc, ◌+◌, ◌-◌, Bool, true, not, String, ◌==◌, ◌≡◌, ◌≢◌, refl, sym, ap, ◌∙◌, Option, none,
  some, List, [], ◌∷◌, mem, All-keep, Result, ok, err, Bool-cases, inl, inr, arith, if◌then◌else◌,
  Option-cases, is_some,
}
use letkite_lite.Dict.{
  lookup, put, Distinct, lookup-put, lookup-put_eq, put-Distinct, keep-Distinct, ==→≡,
  lookup-absent,
}
use letkite_lite.Settings.{Settings}
use letkite_lite.Inventory.Host.{Host, node_id}
use letkite_lite.Inventory.Lookup.{Hosts}
use letkite_lite.Ssh.Pool.{
  Entry, Pool, SshError, Remote, KnownHosts, is_live, known_hosts, acquire, touch, connect_through,
  connect_checked, store_conn, reap, is_idle, pin, unpin,
}
use letkite_lite.Ssh.Pool.Pinned.{pins, pinned_of}

pins-put :
    (j nid : String) (e : Entry) (pool : Pool)
    → pins j (put nid e pool) ≡ (if nid == j then e.pinned else pins j pool)
pins-put j nid e pool = elim (Bool-cases (nid == j)) [
  | inl same ↦ rw (lookup-put j nid e pool, same) refl
  | inr other ↦ rw (lookup-put j nid e pool, other) refl
]

-- One more for the node that is pinned, if it has an entry.
pub pins-pin :
    (j nid : String) (pool : Pool)
    → is_some (lookup nid pool) ≡ true
    → pins j (pin nid pool) ≡ (if nid == j then 1 else 0) + pins j pool
unfolding pin
pins-pin j nid pool there = elim (Option-cases (lookup nid pool)) [
  | inl missing ↦
      let no : is_some {A = Entry} none ≡ true = (rw missing at there) in ground (arith, no)
  | inr (e, found) ↦ rw found (
      pins-put j nid (record e { pinned = suc e.pinned }) pool ∙ elim (Bool-cases (nid == j)) [
        | inl same ↦ rw (same, sym (==→≡ nid j same), found) (omega arith)
        | inr other ↦ rw other (omega arith)
      ])
]

-- One less for the node that is unpinned, and never less than 0.
pub pins-unpin :
    (j nid : String) (pool : Pool)
    → pins j (unpin nid pool) ≡ pins j pool - (if nid == j then 1 else 0)
unfolding unpin
pins-unpin j nid pool = elim (Option-cases (lookup nid pool)) [
  | inl missing ↦ rw missing (elim (Bool-cases (nid == j)) [
    | inl same ↦ rw (same, sym (==→≡ nid j same), missing) (omega arith)
    | inr other ↦ rw other (omega arith)
  ])
  | inr (e, found) ↦ rw found (
      pins-put j nid (record e { pinned = e.pinned - 1 }) pool ∙ elim (Bool-cases (nid == j)) [
        | inl same ↦ rw (same, sym (==→≡ nid j same), found) refl
        | inr other ↦ rw other (omega arith)
      ])
]

pub pin-Distinct : (nid : String) (pool : Pool) → Distinct pool → Distinct (pin nid pool)
unfolding pin
pin-Distinct nid pool d = elim (Option-cases (lookup nid pool)) [
  | inl missing ↦ rw missing d
  | inr (e, found) ↦ rw found (put-Distinct nid _ pool d)
]

pub unpin-Distinct : (nid : String) (pool : Pool) → Distinct pool → Distinct (unpin nid pool)
unfolding unpin
unpin-Distinct nid pool d = elim (Option-cases (lookup nid pool)) [
  | inl missing ↦ rw missing d
  | inr (e, found) ↦ rw found (put-Distinct nid _ pool d)
]

-- A round of the reaper changes no pin count: what it drops has none.
pub pins-reap :
    (ttl now : ℕ) (j : String) (pool : Pool)
    → Distinct pool
    → pins j (reap ttl now pool).0 ≡ pins j pool
unfolding reap lookup
pins-reap ttl now j [] d = refl
pins-reap ttl now j ((k, e) ∷ pool) d = elim (Bool-cases (is_idle ttl now e)) [
  | inl idle ↦ elim (Bool-cases (k == j)) [
    | inl same ↦
        let others = All-keep (λ f. f.0 ≢ k) (λ f. not (is_idle ttl now f.1)) pool d.0 in
        rw (idle, same)
          (ap pinned_of (lookup-absent j _ (rw (==→≡ k j same) at others)) ∙ ground (arith, idle))
    | inr other ↦ rw (idle, other) (pins-reap ttl now j pool d.1)
  ]
  | inr busy ↦ elim (Bool-cases (k == j)) [
    | inl same ↦ rw (busy, same) refl
    | inr other ↦ rw (busy, other) (pins-reap ttl now j pool d.1)
  ]
]

pub reap-Distinct : (ttl now : ℕ) (pool : Pool) → Distinct pool → Distinct (reap ttl now pool).0
unfolding reap
reap-Distinct ttl now pool d = keep-Distinct (λ e. not (is_idle ttl now e.1)) pool d

-- A connection that is returned has an entry.
abbrev pub has_entry {ℓ} : {A : Type ℓ} → Result SshError A → Option Entry → Bool
has_entry (err e) o = true
has_entry (ok a) o = is_some o

store_conn-has_entry :
    (h : Host) (nid : String) (now : ℕ) (conn : Option ℕ) (pool : Pool)
    → (let r = store_conn h nid now conn pool in has_entry r.0 (lookup nid r.1)) ≡ true
store_conn-has_entry h nid now none pool = refl
store_conn-has_entry h nid now (some conn) pool = ap is_some (lookup-put_eq nid _ pool)

touch-has_entry :
    (now : ℕ) (o : Option Entry) (nid : String) (pool : Pool)
    → (let r = touch now o nid pool in has_entry r.0 (lookup nid r.1)) ≡ true
touch-has_entry now none nid pool = refl
touch-has_entry now (some e) nid pool = ap is_some (lookup-put_eq nid _ pool)

connect_checked-has_entry :
    (x : Remote) (h : Host) (nid : String) (now : ℕ) (tunnel : Option ℕ)
    (known : Result SshError KnownHosts) (pool : Pool)
    → (let r = connect_checked x h nid now tunnel known pool in has_entry r.0 (lookup nid r.1))
      ≡ true
connect_checked-has_entry x h nid now tunnel (err e) pool = refl
connect_checked-has_entry x h nid now tunnel (ok k) pool =
    store_conn-has_entry h nid now (x.dial h k tunnel) pool

connect_through-has_entry :
    (x : Remote) (c : Settings) (h : Host) (nid : String) (now : ℕ)
    (t : Result SshError (Option ℕ) × Pool)
    → (let r = connect_through x c h nid now t in has_entry r.0 (lookup nid r.1)) ≡ true
connect_through-has_entry x c h nid now (err e, pool) = refl
connect_through-has_entry x c h nid now (ok tunnel, pool) = elim (Bool-cases (x.has_key h)) [
  | inl usable ↦ rw usable (connect_checked-has_entry x h nid now tunnel (known_hosts x c h) pool)
  | inr unusable ↦ rw unusable refl
]

pub acquire-has_entry :
    (x : Remote) (c : Settings) (hosts : Hosts) (now fuel : ℕ) (held : List String) (h : Host)
    (pool : Pool)
    → (let r = acquire x c hosts now fuel held h pool in
        has_entry r.0 (lookup (node_id x.sha256 h) r.1))
      ≡ true
unfolding acquire
acquire-has_entry x c hosts now zero held h pool = refl
acquire-has_entry x c hosts now (suc fuel) held h pool =
    let nid = node_id x.sha256 h in
    elim (Bool-cases (is_live x (lookup nid pool))) [
      | inl live ↦ rw live (touch-has_entry now (lookup nid pool) nid pool)
      | inr gone ↦ elim (Bool-cases (mem nid held)) [
        | inl own ↦ rw (gone, own) refl
        | inr new ↦ rw (gone, new) (connect_through-has_entry x c h nid now _)
      ]
    ]
