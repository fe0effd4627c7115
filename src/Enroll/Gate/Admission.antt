-- ===== src/Enroll/Gate/Admission.antt =====
-- Whom the gate of src/vpsmcp/enroll.py lets through, and how long it stays shut.
use letkite_lite.Prelude.{
  ℕ, ◌+◌, ◌-◌, ◌^◌, ◌≤◌, ◌<◌, min, Bool, true, false, not, String, ◌==◌, ◌≡◌, ◌⊎◌, refl, ap, Option,
  none, some, List, [], ◌∷◌, find, eqb, if◌then◌else◌, Bool-cases, inl, inr, arith, eq_refl,
}
use letkite_lite.Sql.{find-replace}
use letkite_lite.Net.{client_ip}
use letkite_lite.Settings.{Settings}
use letkite_lite.Enroll.Store.{
  EnrollStore, AttemptRow, is_attempt, locked, failed, fails_so_far, lock_of, left,
}
use letkite_lite.Enroll.Gate.{
  Addresses, Visit, Denial, e_closed, e_rate, gate, in_any, cidr_denial, address_denial,
  network_denial, key_check, after_cidrs,
}

-- There is no list of networks, or the address is one and a network of the list has it.
abbrev pub IsListed : Addresses → List String → String → Type 0
IsListed a cidrs ip =
    (cidrs ≡ [])
    ⊎ ((addr : String) × (a.ip_address ip ≡ some addr)
        × (in_any a.in_network addr cidrs ≡ some true))

pub record IsAdmitted (a : Addresses) (c : Settings) (now : ℕ) (v : Visit) (s : EnrollStore)
    : Type 0 where
  pub is_open : (c.enroll_mode == "off") ≡ false
  pub unlocked : locked now (client_ip v.source c.trusted_proxy_hops) s ≡ 0
  pub listed : IsListed a c.enroll_allow_cidrs (client_ip v.source c.trusted_proxy_hops)
  pub has_key : ((c.enroll_key == "") ≡ true) ⊎ ((v.key == c.enroll_key) ≡ true)

network_denial-none : (o : Option Bool) → network_denial o ≡ none → o ≡ some true
network_denial-none none h = ground (arith, h)
network_denial-none (some true) h = refl
network_denial-none (some false) h = ground (arith, h)

address_denial-none :
    (a : Addresses) (cidrs : List String) (o : Option String)
    → address_denial a cidrs o ≡ none
    → (addr : String) × (o ≡ some addr) × (in_any a.in_network addr cidrs ≡ some true)
address_denial-none a cidrs none h = ground (arith, h)
address_denial-none a cidrs (some addr) h =
    (addr, refl, network_denial-none (in_any a.in_network addr cidrs) h)

cidr_denial-none :
    (a : Addresses) (cidrs : List String) (ip : String)
    → cidr_denial a cidrs ip ≡ none
    → IsListed a cidrs ip
unfolding cidr_denial
cidr_denial-none a [] ip h = inl refl
cidr_denial-none a (c ∷ cs) ip h = inr (address_denial-none a (c ∷ cs) (a.ip_address ip) h)

key_check-none :
    (now : ℕ) (ip expected got : String) (s : EnrollStore)
    → (key_check now ip expected got s).0 ≡ none
    → (((expected == "") ≡ true) ⊎ ((got == expected) ≡ true))
      × ((key_check now ip expected got s).1 ≡ s)
key_check-none now ip expected got s h = elim (Bool-cases (expected == "")) [
  | inl keyless ↦ rw keyless (inl refl, refl)
  | inr keyed ↦ elim (Bool-cases (got == expected)) [
    | inl right ↦ rw (keyed, right) (inr refl, refl)
    | inr wrong ↦ let no = (rw (keyed, wrong) at h) in ground (arith, no)
  ]
]

after_cidrs-none :
    (now : ℕ) (ip expected got : String) (s : EnrollStore) (o : Option Denial)
    → (after_cidrs now ip expected got s o).0 ≡ none
    → (o ≡ none)
      × (((expected == "") ≡ true) ⊎ ((got == expected) ≡ true))
      × ((after_cidrs now ip expected got s o).1 ≡ s)
after_cidrs-none now ip expected got s (some d) h = ground (arith, h)
after_cidrs-none now ip expected got s none h =
    let r = key_check-none now ip expected got s h in (refl, r.0, r.1)

zero_of : (n : ℕ) → not (eqb n 0) ≡ false → n ≡ 0
zero_of n h = ground arith

-- Whoever is let through is admitted, and the store is as it was.
pub gate-IsAdmitted :
    (a : Addresses) (c : Settings) (now : ℕ) (v : Visit) (s : EnrollStore)
    → (gate a c now v s).0 ≡ none
    → IsAdmitted a c now v s × ((gate a c now v s).1 ≡ s)
unfolding gate
gate-IsAdmitted a c now v s h =
    let ip = client_ip v.source c.trusted_proxy_hops in
    elim (Bool-cases (c.enroll_mode == "off")) [
      | inl off ↦ let no = (rw off at h) in ground (arith, no)
      | inr on ↦ elim (Bool-cases (not (eqb (locked now ip s) 0))) [
        | inl shut ↦ let no = (rw (on, shut) at h) in ground (arith, no)
        | inr free ↦
            let r =
              after_cidrs-none now ip c.enroll_key v.key s (cidr_denial a c.enroll_allow_cidrs ip)
                (rw (on, free) at h) in
            (
              record {
                is_open = on;
                unlocked = zero_of (locked now ip s) free;
                listed = cidr_denial-none a c.enroll_allow_cidrs ip r.0;
                has_key = r.1;
              },
              rw (on, free) r.2,
            )
      ]
    ]

lock_holds :
    (now later n : ℕ)
    → 5 ≤ n
    → later < now + min 1800 (2 ^ min n 11)
    → not (eqb (lock_of now n - later) 0) ≡ true
lock_holds now later n many soon = ground arith

-- The failures of an address, with the one that is now.
abbrev pub failures : String → EnrollStore → ℕ
failures ip s = fails_so_far (find (is_attempt ip) s.attempts) + 1

locked-failed :
    (now later : ℕ) (ip : String) (s : EnrollStore)
    → locked later ip (failed now ip s) ≡ lock_of now (failures ip s) - later
unfolding locked failed
locked-failed now later ip s =
    ap (left later) (find-replace (is_attempt ip) (attempt now ip s) s.attempts (eq_refl ip))
  where
    attempt : ℕ → String → EnrollStore → AttemptRow
    attempt now ip s = record {
      ip = ip;
      fails = failures ip s;
      locked_until = lock_of now (failures ip s);
    }

-- From the fifth failure of an address on, for two seconds to the power of the failures, and for half an hour at
-- most, the gate is shut for it, whatever key it brings, and nothing changes.
pub gate-locks :
    (a : Addresses) (c : Settings) (now later : ℕ) (v : Visit) (s : EnrollStore)
    → 5 ≤ failures (client_ip v.source c.trusted_proxy_hops) s
    → later < now + min 1800 (2 ^ min (failures (client_ip v.source c.trusted_proxy_hops) s) 11)
    → gate a c later v (failed now (client_ip v.source c.trusted_proxy_hops) s) ≡ (
      if c.enroll_mode == "off" then some e_closed else some e_rate,
      failed now (client_ip v.source c.trusted_proxy_hops) s,
    )
unfolding gate
gate-locks a c now later v s many soon =
    let ip = client_ip v.source c.trusted_proxy_hops in
    let shut = lock_holds now later (failures ip s) many soon in
    elim (Bool-cases (c.enroll_mode == "off")) [
      | inl off ↦ rw off refl
      | inr on ↦ rw (on, locked-failed now later ip s, shut) refl
    ]
