-- ===== src/Ssh/Pool/Ending.antt =====
-- When `SSHPool.acquire` of src/vpsmcp/ssh/pool.py returns: each step along the jump hosts holds one more
-- node's lock, and where the jump hosts make no circle it never waits for a lock that it holds.
use mathlib.Core.Path.{subst}
use letkite_lite.Prelude.{
  ℕ, zero, suc, ◌<◌, ◌≤◌, Bool, true, false, String, ◌==◌, ◌≡◌, refl, Option, none, some, List, [],
  ◌∷◌, mem, length, All, All-map, All-keep, Result, ok, err, Bool-cases, inl, inr, arith,
  if◌then◌else◌, eq_refl,
}
use letkite_lite.Dict.{lookup, remove, keys_of, lookup-All, ==→≡}
use letkite_lite.Settings.{Settings}
use letkite_lite.Inventory.Host.{Host, node_id}
use letkite_lite.Inventory.Lookup.{Hosts, InventoryError, values, matches, get}
use letkite_lite.Inventory.Found.{get-unambiguous}
use letkite_lite.Ssh.Pool.{
  or_empty, Entry, Pool, SshError, out_of_fuel, waits_forever, Remote, KnownHosts, is_live,
  known_hosts, acquire, touch, connect_through, connect_checked, store_conn, tunnel_for, jump_to,
  as_tunnel,
}

-- The nodes of the inventory whose locks are free.
abbrev free : List String → Hosts → ℕ
free held [] = 0
free held ((k, h) ∷ hosts) = let rest = free held hosts in if mem k held then rest else suc rest

free-le :
    (nid : String) (held : List String) (hosts : Hosts) → free (nid ∷ held) hosts ≤ free held hosts
free-le nid held [] = omega arith
free-le nid held ((k, h) ∷ hosts) = ground (arith, free-le nid held hosts)

free-less :
    (nid : String) (held : List String) (hosts : Hosts)
    → mem nid held ≡ false
    → mem nid (keys_of hosts) ≡ true
    → free (nid ∷ held) hosts < free held hosts
free-less nid held [] out there = ground arith
free-less nid held ((k, h) ∷ hosts) out there = elim (Bool-cases (k == nid)) [
  | inl same ↦ rw (==→≡ k nid same, eq_refl nid, out) (ground (arith, free-le nid held hosts))
  | inr other ↦ ground (arith, free-less nid held hosts out (rw other at there))
]

free-length : (held : List String) (hosts : Hosts) → free held hosts ≤ length hosts
free-length held [] = omega arith
free-length held ((k, h) ∷ hosts) = ground (arith, free-length held hosts)

-- `get` returns a host of the inventory.
module _ (P : Host → Type 0) where
  values-All : (hosts : Hosts) → All (λ e. P e.1) hosts → All P (values hosts)
  values-All [] a = tt
  values-All (e ∷ hosts) a = (a.0, values-All hosts a.1)

  pub get-All :
      (key : String) (hosts : Hosts) (h : Host)
      → All (λ e. P e.1) hosts
      → get key hosts ≡ ok h
      → P h
  unfolding matches
  get-All key hosts h a e = elim (get-unambiguous key hosts h e) [
    | inl found ↦ lookup-All (λ e. P e.1) key h hosts a found
    | inr (missing, single) ↦
        let all = All-keep P (λ h. h.alias == key) (values hosts) (values-All hosts a) in
        (rw single at all).0
  ]

-- The errors that the code raises: not to have fuel, and to wait for ever, are none of them.
abbrev is_other : SshError → Bool
is_other out_of_fuel = false
is_other (waits_forever nid) = false
is_other _ = true

abbrev pub ends {ℓ} : {A : Type ℓ} → Result SshError A → Bool
ends (ok a) = true
ends (err e) = is_other e

touch-ends :
    (x : Remote) (now : ℕ) (e : Option Entry) (nid : String) (pool : Pool)
    → is_live x e ≡ true
    → ends (touch now e nid pool).0 ≡ true
unfolding is_live
touch-ends x now none nid pool live = ground arith
touch-ends x now (some e) nid pool live = refl

store_conn-ends :
    (h : Host) (nid : String) (now : ℕ) (conn : Option ℕ) (pool : Pool)
    → ends (store_conn h nid now conn pool).0 ≡ true
store_conn-ends h nid now none pool = refl
store_conn-ends h nid now (some conn) pool = refl

known_hosts-ends : (x : Remote) (c : Settings) (h : Host) → ends (known_hosts x c h) ≡ true
unfolding known_hosts
known_hosts-ends x c h = ground arith

connect_checked-ends :
    (x : Remote) (h : Host) (nid : String) (now : ℕ) (tunnel : Option ℕ)
    (known : Result SshError KnownHosts) (pool : Pool)
    → ends known ≡ true
    → ends (connect_checked x h nid now tunnel known pool).0 ≡ true
connect_checked-ends x h nid now tunnel (ok k) pool e =
    store_conn-ends h nid now (x.dial h k tunnel) pool
connect_checked-ends x h nid now tunnel (err f) pool e = e

module _ (x : Remote) (c : Settings) (hosts : Hosts) (now : ℕ) where
  connect_through-ends :
      (h : Host) (nid : String) (r : Result SshError (Option ℕ) × Pool)
      → ends r.0 ≡ true
      → ends (connect_through x c h nid now r).0 ≡ true
  connect_through-ends h nid (err e, pool) ended = ended
  connect_through-ends h nid (ok tunnel, pool) ended = elim (Bool-cases (x.has_key h)) [
    | inl usable ↦
        rw usable (
          connect_checked-ends x h nid now tunnel (known_hosts x c h) pool (known_hosts-ends x c h))
    | inr unusable ↦ rw unusable refl
  ]

  as_tunnel-ends : (r : Result SshError ℕ × Pool) → ends r.0 ≡ true → ends (as_tunnel r).0 ≡ true
  as_tunnel-ends (err e, pool) ended = ended
  as_tunnel-ends (ok conn, pool) ended = refl

  -- The node's key is in the inventory.
  abbrev IsKnown : Host → Type 0
  IsKnown h = mem (node_id x.sha256 h) (keys_of hosts) ≡ true

  jump_to-ends :
      (next : Host → Pool → Result SshError ℕ × Pool) (r : Result InventoryError Host) (pool : Pool)
      → ((h : Host) → r ≡ ok h → ends (next h pool).0 ≡ true)
      → ends (jump_to next r pool).0 ≡ true
  jump_to-ends next (err e) pool go = refl
  jump_to-ends next (ok h) pool go = as_tunnel-ends (next h pool) (go h refl)

  tunnel_for-ends :
      (next : Host → Pool → Result SshError ℕ × Pool) (jump : String) (pool : Pool)
      → ((jump == "") ≡ false
          → (h : Host) (p : Pool) → get jump hosts ≡ ok h
          → ends (next h p).0 ≡ true)
      → ends (tunnel_for next hosts jump pool).0 ≡ true
  tunnel_for-ends next jump pool go = elim (Bool-cases (jump == "")) [
    | inl direct ↦ rw direct refl
    | inr named ↦
        rw named (jump_to-ends next (get jump hosts) pool (λ h found. go named h pool found))
  ]

  module _ (rank : String → ℕ) where
    -- The jump host of a host has a lower rank.
    abbrev pub GoesDown : Host → Type 0
    GoesDown h =
        (g : Host)
        → (or_empty h.jump == "") ≡ false
        → get (or_empty h.jump) hosts ≡ ok g
        → rank (node_id x.sha256 g) < rank (node_id x.sha256 h)

    lower-not_held :
        (nid : String) (held : List String)
        → All (λ k. rank nid < rank k) held
        → mem nid held ≡ false
    lower-not_held nid [] a = refl
    lower-not_held nid (k ∷ held) a = elim (Bool-cases (k == nid)) [
      | inl same ↦
          let lt : rank nid < rank nid = subst (λ j. rank nid < rank j) (==→≡ k nid same) a.0 in
          ground (arith, lt)
      | inr other ↦ ground (arith, other, lower-not_held nid held a.1)
    ]

    -- One step, if the steps after it end.
    acquire-step_ends :
        (fuel : ℕ) (held : List String) (h : Host) (pool : Pool)
        → All (λ e. IsKnown e.1) hosts
        → All (λ e. GoesDown e.1) hosts
        → GoesDown h
        → mem (node_id x.sha256 h) held ≡ false
        → ((g : Host) (p : Pool)
            → IsKnown g
            → GoesDown g
            → rank (node_id x.sha256 g) < rank (node_id x.sha256 h)
            → ends (acquire x c hosts now fuel (node_id x.sha256 h ∷ held) g p).0 ≡ true)
        → ends (acquire x c hosts now (suc fuel) held h pool).0 ≡ true
    unfolding acquire
    acquire-step_ends fuel held h pool known down own new go =
        let nid = node_id x.sha256 h in
        let jump = or_empty h.jump in
        elim (Bool-cases (is_live x (lookup nid pool))) [
          | inl live ↦ rw live (touch-ends x now (lookup nid pool) nid pool live)
          | inr gone ↦
              rw (gone, new)
                (connect_through-ends h nid _ (
                  tunnel_for-ends (acquire x c hosts now fuel (nid ∷ held)) jump (remove nid pool)
                    (λ named g p found.
                      go g p (get-All IsKnown jump hosts g known found)
                        (get-All GoesDown jump hosts g down found) (own g named found))))
        ]

    acquire-known_ends :
        (fuel : ℕ) (held : List String) (h : Host) (pool : Pool)
        → All (λ e. IsKnown e.1) hosts
        → All (λ e. GoesDown e.1) hosts
        → IsKnown h
        → GoesDown h
        → All (λ k. rank (node_id x.sha256 h) < rank k) held
        → free held hosts < fuel
        → ends (acquire x c hosts now fuel held h pool).0 ≡ true
    acquire-known_ends zero held h pool known down there own low lt = ground (arith, lt)
    acquire-known_ends (suc fuel) held h pool known down there own low lt =
        let nid = node_id x.sha256 h in
        let new = lower-not_held nid held low in
        acquire-step_ends fuel held h pool known down own new (λ g p g_there g_own less.
          acquire-known_ends fuel (nid ∷ held) g p known down g_there g_own
            (less, All-map _ _ held (λ k above. omega (arith, less, above)) low)
            (ground (arith, lt, free-less nid held hosts new there)))

mem-tail : (s k : String) (ks : List String) → mem s ks ≡ true → mem s (k ∷ ks) ≡ true
mem-tail s k ks h = ground (arith, h)

own-IsKnown :
    (sha256 : String → String) (hosts : Hosts)
    → All (λ e. e.0 ≡ node_id sha256 e.1) hosts
    → All (λ e. mem (node_id sha256 e.1) (keys_of hosts) ≡ true) hosts
own-IsKnown sha256 [] own = tt
own-IsKnown sha256 ((k, h) ∷ hosts) own = (
  rw (own.0, eq_refl (node_id sha256 h)) refl,
  All-map (λ e. mem (node_id sha256 e.1) (keys_of hosts) ≡ true)
      (λ e. mem (node_id sha256 e.1) (k ∷ keys_of hosts) ≡ true) hosts
      (λ e there. mem-tail (node_id sha256 e.1) k (keys_of hosts) there)
      (own-IsKnown sha256 hosts own.1),
)

-- In an inventory where each key is its host's node id and the jump hosts make no circle, which is to say that a rank
-- goes down from each host to its jump host, `acquire` returns a connection or an error that the code raises, for
-- any host whose own jump host is of a lower rank: with a fuel of two more than there are hosts it neither runs out of
-- it nor waits for a lock that it holds.
pub acquire-ends :
    (x : Remote) (c : Settings) (hosts : Hosts) (now : ℕ) (rank : String → ℕ) (h : Host)
    (pool : Pool)
    → All (λ e. e.0 ≡ node_id x.sha256 e.1) hosts
    → All (λ e. GoesDown x c hosts now rank e.1) hosts
    → GoesDown x c hosts now rank h
    → ends (acquire x c hosts now (suc (suc (length hosts))) [] h pool).0 ≡ true
acquire-ends x c hosts now rank h pool own down from =
    let known = own-IsKnown x.sha256 hosts own in
    let nid = node_id x.sha256 h in
    acquire-step_ends x c hosts now rank (suc (length hosts)) [] h pool known down from refl
      (λ g p there g_down less.
        acquire-known_ends x c hosts now rank (suc (length hosts)) (nid ∷ []) g p known down there
          g_down (less, tt) (omega (arith, free-length (nid ∷ []) hosts)))
