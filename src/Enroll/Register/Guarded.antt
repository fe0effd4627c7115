-- ===== src/Enroll/Register/Guarded.antt =====
-- What a visit that the gate of src/vpsmcp/enroll.py refuses can change.
use letkite_lite.Prelude.{
  ℕ, String, ◌≡◌, ◌⊎◌, refl, Option, none, some, Option-cases, inl, inr, eqb, not, ◌==◌, Bool-cases,
}
use letkite_lite.Net.{client_ip}
use letkite_lite.Settings.{Settings}
use letkite_lite.Enroll.Store.{EnrollStore, locked, failed}
use letkite_lite.Enroll.Gate.{Addresses, Visit, Denial, gate, cidr_denial, after_cidrs, key_check}
use letkite_lite.Enroll.Gate.Admission.{IsAdmitted, gate-IsAdmitted}
use letkite_lite.Enroll.Register.{Outside, World, Body, register}

-- Apart from the count of failed attempts and the audit log, nothing has changed.
pub record IsUntouched (before after : World) : Type 0 where
  pub disk : after.disk ≡ before.disk
  pub watcher : after.watcher ≡ before.watcher
  pub pool : after.pool ≡ before.pool
  pub nodes : after.store.nodes ≡ before.store.nodes
  pub pending : after.store.pending ≡ before.store.pending

key_check-rows :
    (now : ℕ) (ip expected got : String) (s : EnrollStore)
    → ((key_check now ip expected got s).1.nodes ≡ s.nodes)
      × ((key_check now ip expected got s).1.pending ≡ s.pending)
unfolding failed
key_check-rows now ip expected got s = elim (Bool-cases (expected == "")) [
  | inl keyless ↦ rw keyless (refl, refl)
  | inr keyed ↦ elim (Bool-cases (got == expected)) [
    | inl right ↦ rw (keyed, right) (refl, refl)
    | inr wrong ↦ rw (keyed, wrong) (refl, refl)
  ]
]

after_cidrs-rows :
    (now : ℕ) (ip expected got : String) (s : EnrollStore) (o : Option Denial)
    → ((after_cidrs now ip expected got s o).1.nodes ≡ s.nodes)
      × ((after_cidrs now ip expected got s o).1.pending ≡ s.pending)
after_cidrs-rows now ip expected got s (some d) = (refl, refl)
after_cidrs-rows now ip expected got s none = key_check-rows now ip expected got s

gate-rows :
    (a : Addresses) (c : Settings) (now : ℕ) (v : Visit) (s : EnrollStore)
    → ((gate a c now v s).1.nodes ≡ s.nodes) × ((gate a c now v s).1.pending ≡ s.pending)
unfolding gate
gate-rows a c now v s =
    let ip = client_ip v.source c.trusted_proxy_hops in
    elim (Bool-cases (c.enroll_mode == "off")) [
      | inl off ↦ rw off (refl, refl)
      | inr on ↦ elim (Bool-cases (not (eqb (locked now ip s) 0))) [
        | inl shut ↦ rw (on, shut) (refl, refl)
        | inr free ↦
            rw (on, free)
              (after_cidrs-rows now ip c.enroll_key v.key s (cidr_denial a c.enroll_allow_cidrs ip))
      ]
    ]

-- A registration touches the files, the pool, the table of nodes or the queue of approvals only if enrollment is
-- on, the caller's address is not locked, it is in a listed network if networks are listed, and the caller has
-- brought the enrollment key if there is one.
pub register-guarded :
    (x : Outside) (c : Settings) (now : ℕ) (v : Visit) (body : Body) (w : World)
    → IsAdmitted x.addresses c now v w.store ⊎ IsUntouched w (register x c now v body w).1
unfolding register
register-guarded x c now v body w = elim (Option-cases (gate x.addresses c now v w.store).0) [
  | inl through ↦ inl (gate-IsAdmitted x.addresses c now v w.store through).0
  | inr (d, denied) ↦
      let rows = gate-rows x.addresses c now v w.store in
      inr (
        rw denied
          record { disk = refl; watcher = refl; pool = refl; nodes = rows.0; pending = rows.1 })
]
