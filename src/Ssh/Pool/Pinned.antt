-- ===== src/Ssh/Pool/Pinned.antt =====
-- What `acquire` of src/vpsmcp/ssh/pool.py does to the pin counts: nothing, as long as no connection that
-- is pinned has died. A connection that died with pins is replaced by an entry with none.
pub mod Moves
use letkite_lite.Prelude.{
  ℕ, zero, suc, ◌+◌, ◌-◌, ◌<◌, Bool, true, false, not, ◌||◌, String, ◌==◌, ◌≡◌, ◌≢◌, refl, sym, ap,
  ◌∙◌, Option, none, some, List, [], ◌∷◌, keep, mem, eqb, All, Result, ok, err, Bool-cases, inl,
  inr, arith, if◌then◌else◌, Option-cases,
}
use letkite_lite.Dict.{
  lookup, put, remove, Distinct, lookup-put, lookup-remove, put-Distinct, keep-Distinct, ==→≡,
  lookup-absent,
}
use letkite_lite.Settings.{Settings}
use letkite_lite.Inventory.Host.{Host, node_id}
use letkite_lite.Inventory.Lookup.{Hosts, InventoryError, get}
use letkite_lite.Ssh.Pool.{
  or_empty, Entry, Pool, SshError, Remote, KnownHosts, is_live, known_hosts, acquire, touch,
  connect_through, connect_checked, store_conn, tunnel_for, jump_to, as_tunnel, reap, is_idle, pin,
  unpin,
}

abbrev pinned_of : Option Entry → ℕ
pinned_of none = 0
pinned_of (some e) = e.pinned

abbrev pub pins : String → Pool → ℕ
pins nid pool = pinned_of (lookup nid pool)

abbrev alive_if_pinned : Remote → Option Entry → Bool
alive_if_pinned x none = true
alive_if_pinned x (some e) = eqb e.pinned 0 || not (x.dead e.conn)

-- Each node has one entry, and no connection that is pinned has died.
pub record IsFit (x : Remote) (pool : Pool) : Type 0 where
  pub alive : (nid : String) → alive_if_pinned x (lookup nid pool) ≡ true
  pub distinct : Distinct pool

pub record Keeps (x : Remote) (before after : Pool) : Type 0 where
  pub same : (nid : String) → pins nid after ≡ pins nid before
  pub fit : IsFit x after

Keeps-none : (x : Remote) (pool : Pool) → IsFit x pool → Keeps x pool pool
Keeps-none x pool f = record { same = λ nid. refl; fit = f }

Keeps-both : (x : Remote) (p q r : Pool) → Keeps x p q → Keeps x q r → Keeps x p r
Keeps-both x p q r a b = record { same = λ nid. b.same nid ∙ a.same nid; fit = b.fit }

pinned_of-if :
    (b : Bool) (o p : Option Entry) (n : ℕ)
    → (b ≡ true → pinned_of o ≡ n)
    → (b ≡ false → pinned_of p ≡ n)
    → pinned_of (if b then o else p) ≡ n
pinned_of-if true o p n f g = f refl
pinned_of-if false o p n f g = g refl

alive-if :
    (x : Remote) (b : Bool) (o p : Option Entry)
    → alive_if_pinned x o ≡ true
    → alive_if_pinned x p ≡ true
    → alive_if_pinned x (if b then o else p) ≡ true
alive-if x true o p f g = f
alive-if x false o p f g = g

put-Keeps :
    (x : Remote) (nid : String) (e : Entry) (pool : Pool)
    → IsFit x pool
    → e.pinned ≡ pins nid pool
    → alive_if_pinned x (some e) ≡ true
    → Keeps x pool (put nid e pool)
put-Keeps x nid e pool f same alive = record {
  same = λ j.
      ap pinned_of (lookup-put j nid e pool)
      ∙ pinned_of-if (nid == j) (some e) (lookup j pool) (pins j pool)
          (λ own. same ∙ ap (λ k. pins k pool) (==→≡ nid j own)) (λ other. refl);
  fit = record {
    alive = λ j.
        ap (alive_if_pinned x) (lookup-put j nid e pool)
        ∙ alive-if x (nid == j) (some e) (lookup j pool) alive (f.alive j);
    distinct = put-Distinct nid e pool f.distinct;
  };
}

remove-Keeps :
    (x : Remote) (nid : String) (pool : Pool)
    → IsFit x pool
    → pins nid pool ≡ 0
    → Keeps x pool (remove nid pool)
unfolding remove
remove-Keeps x nid pool f unpinned = record {
  same = λ j.
      ap pinned_of (lookup-remove j nid pool)
      ∙ pinned_of-if (nid == j) none (lookup j pool) (pins j pool)
          (λ own. sym (ap (λ k. pins k pool) (sym (==→≡ nid j own)) ∙ unpinned)) (λ other. refl);
  fit = record {
    alive = λ j.
        ap (alive_if_pinned x) (lookup-remove j nid pool)
        ∙ alive-if x (nid == j) none (lookup j pool) refl (f.alive j);
    distinct = keep-Distinct (λ e. not (e.0 == nid)) pool f.distinct;
  };
}

-- What is not live has no pins.
stale-unpinned :
    (x : Remote) (o : Option Entry)
    → alive_if_pinned x o ≡ true
    → is_live x o ≡ false
    → pinned_of o ≡ 0
unfolding is_live
stale-unpinned x none alive stale = refl
stale-unpinned x (some e) alive stale = ground (arith, alive, stale)

live-alive : (x : Remote) (o : Option Entry) → is_live x o ≡ true → alive_if_pinned x o ≡ true
unfolding is_live
live-alive x none live = refl
live-alive x (some e) live = ground (arith, live)

touch-Keeps :
    (x : Remote) (now : ℕ) (nid : String) (pool : Pool) (o : Option Entry)
    → IsFit x pool
    → lookup nid pool ≡ o
    → Keeps x pool (touch now o nid pool).1
touch-Keeps x now nid pool none f e = Keeps-none x pool f
touch-Keeps x now nid pool (some e) f found =
    put-Keeps x nid (record e { last_used = now }) pool f (ap pinned_of (sym found))
      (ap (alive_if_pinned x) (sym found) ∙ f.alive nid)

store_conn-Keeps :
    (x : Remote) (h : Host) (nid : String) (now : ℕ) (conn : Option ℕ) (pool : Pool)
    → IsFit x pool
    → pins nid pool ≡ 0
    → Keeps x pool (store_conn h nid now conn pool).1
store_conn-Keeps x h nid now none pool f unpinned = Keeps-none x pool f
store_conn-Keeps x h nid now (some conn) pool f unpinned =
    put-Keeps x nid _ pool f (sym unpinned) refl

connect_checked-Keeps :
    (x : Remote) (h : Host) (nid : String) (now : ℕ) (tunnel : Option ℕ)
    (known : Result SshError KnownHosts) (pool : Pool)
    → IsFit x pool
    → pins nid pool ≡ 0
    → Keeps x pool (connect_checked x h nid now tunnel known pool).1
connect_checked-Keeps x h nid now tunnel (err e) pool f unpinned = Keeps-none x pool f
connect_checked-Keeps x h nid now tunnel (ok known) pool f unpinned =
    store_conn-Keeps x h nid now (x.dial h known tunnel) pool f unpinned

module _ (x : Remote) (c : Settings) (hosts : Hosts) (now : ℕ) where
  connect_through-Keeps :
      (h : Host) (nid : String) (r : Result SshError (Option ℕ) × Pool)
      → IsFit x r.1
      → pins nid r.1 ≡ 0
      → Keeps x r.1 (connect_through x c h nid now r).1
  connect_through-Keeps h nid (err e, pool) f unpinned = Keeps-none x pool f
  connect_through-Keeps h nid (ok tunnel, pool) f unpinned = elim (Bool-cases (x.has_key h)) [
    | inl usable ↦
        rw usable (connect_checked-Keeps x h nid now tunnel (known_hosts x c h) pool f unpinned)
    | inr unusable ↦ rw unusable (Keeps-none x pool f)
  ]

  as_tunnel-Keeps :
      (before : Pool) (r : Result SshError ℕ × Pool)
      → Keeps x before r.1
      → Keeps x before (as_tunnel r).1
  as_tunnel-Keeps before (err e, pool) k = k
  as_tunnel-Keeps before (ok conn, pool) k = k

  jump_to-Keeps :
      (next : Host → Pool → Result SshError ℕ × Pool) (r : Result InventoryError Host) (pool : Pool)
      → IsFit x pool
      → ((h : Host) → Keeps x pool (next h pool).1)
      → Keeps x pool (jump_to next r pool).1
  jump_to-Keeps next (err e) pool f go = Keeps-none x pool f
  jump_to-Keeps next (ok h) pool f go = as_tunnel-Keeps pool (next h pool) (go h)

  tunnel_for-Keeps :
      (next : Host → Pool → Result SshError ℕ × Pool) (jump : String) (pool : Pool)
      → IsFit x pool
      → ((h : Host) → Keeps x pool (next h pool).1)
      → Keeps x pool (tunnel_for next hosts jump pool).1
  tunnel_for-Keeps next jump pool f go = elim (Bool-cases (jump == "")) [
    | inl direct ↦ rw direct (Keeps-none x pool f)
    | inr named ↦ rw named (jump_to-Keeps next (get jump hosts) pool f go)
  ]

  -- `acquire`, with whatever it does to the connections on the way, leaves every node's pins as they are.
  pub acquire-Keeps :
      (fuel : ℕ) (held : List String) (h : Host) (pool : Pool)
      → IsFit x pool
      → Keeps x pool (acquire x c hosts now fuel held h pool).1
  unfolding acquire
  acquire-Keeps zero held h pool f = Keeps-none x pool f
  acquire-Keeps (suc fuel) held h pool f =
      let nid = node_id x.sha256 h in
      elim (Bool-cases (is_live x (lookup nid pool))) [
        | inl live ↦ rw live (touch-Keeps x now nid pool (lookup nid pool) f refl)
        | inr gone ↦ elim (Bool-cases (mem nid held)) [
          | inl own ↦ rw (gone, own) (Keeps-none x pool f)
          | inr new ↦
              let next = acquire x c hosts now fuel (nid ∷ held) in
              let unpinned = stale-unpinned x (lookup nid pool) (f.alive nid) gone in
              let less = remove-Keeps x nid pool f unpinned in
              let jumped =
                tunnel_for-Keeps next (or_empty h.jump) (remove nid pool) less.fit
                  (λ g. acquire-Keeps fuel (nid ∷ held) g (remove nid pool) less.fit) in
              let there = Keeps-both x pool _ _ less jumped in
              rw (gone, new)
                (Keeps-both x pool _ _ there
                  (connect_through-Keeps h nid _ jumped.fit (there.same nid ∙ unpinned)))
        ]
      ]
