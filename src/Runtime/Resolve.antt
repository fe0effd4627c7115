-- ===== src/Runtime/Resolve.antt =====
-- What a host that `resolve` or `resolve_many` of src/vpsmcp/runtime.py returns allows.
use letkite_lite.Prelude.{
  ℕ, ◌≤◌, Bool, true, false, not, ◌&&◌, ◌||◌, String, ◌==◌, ◌≡◌, sym, ap, Option, none, some, List,
  [], ◌∷◌, All, mem, max, Result, ok, err, ok-injective, err≢ok, bind-ok, Bool-cases, inl, inr,
  arith,
}
use letkite_lite.Settings.{Settings}
use letkite_lite.Inventory.Host.{Host, node_id, allows}
use letkite_lite.Inventory.Lookup.{Hosts, get, select}
use letkite_lite.Policy.{guard}
use letkite_lite.Policy.Guardrails.{guard-both}
use letkite_lite.Runtime.{
  AccessToken, ToolError, scopes, resolve, resolve_each, resolve_many, raise_from, clamp_timeout,
  inventory, policy,
}

-- The token and the host both grant what is needed, and a read-only gateway is only read.
pub record IsAllowed (c : Settings) (tok : Option AccessToken) (need : String) (h : Host)
    : Type 0 where
  pub by_token : mem need (scopes tok) || mem "fleet.admin" (scopes tok) ≡ true
  pub by_host : allows h need || allows h "fleet.admin" ≡ true
  pub by_mode : c.read_only && not (need == "fleet.read") ≡ false

raise_from-ok :
    {X A : Type 0} (f : X → ToolError) (r : Result X A) (a : A) → raise_from f r ≡ ok a → r ≡ ok a
raise_from-ok f (err x) a e = err≢ok e
raise_from-ok f (ok b) a e = ap ok (ok-injective b a e)

module _ (c : Settings) (tok : Option AccessToken) (hosts : Hosts) where
  -- `resolve` returns the host that the inventory finds for the key, and only if the token and the host
  -- grant the scope and the gateway's mode permits it.
  pub resolve-IsAllowed :
      (key need : String) (h : Host)
      → resolve c tok hosts key need ≡ ok h
      → (get key hosts ≡ ok h) × IsAllowed c tok need h
  unfolding resolve
  resolve-IsAllowed key need h e =
      let (g, found, e1) = bind-ok (raise_from inventory (get key hosts)) _ h e in
      elim (Bool-cases (c.read_only && not (need == "fleet.read"))) [
        | inl stops ↦ err≢ok (rw stops at e1)
        | inr free ↦
            let (u, passed, e2) =
              bind-ok (raise_from policy (guard (scopes tok) g need)) (λ u. ok g) h
                (rw free at e1) in
            let both = guard-both (scopes tok) g need (raise_from-ok policy _ u passed) in
            let same = ok-injective g h e2 in
            rw (sym same) (
              raise_from-ok inventory (get key hosts) g found,
              record { by_token = both.0; by_host = both.1; by_mode = free },
            )
      ]

  resolve_each-IsAllowed :
      (sha256 : String → String) (need : String) (hs gs : List Host)
      → resolve_each c tok hosts sha256 need hs ≡ ok gs
      → All (IsAllowed c tok need) gs
  unfolding resolve_each
  resolve_each-IsAllowed sha256 need [] gs e = rw (sym (ok-injective [] gs e)) tt
  resolve_each-IsAllowed sha256 need (h ∷ hs) gs e =
      let (g, one, e1) = bind-ok (resolve c tok hosts (node_id sha256 h) need) _ gs e in
      let (rest, more, e2) =
        bind-ok (resolve_each c tok hosts sha256 need hs) (λ r. ok (g ∷ r)) gs e1 in
      rw (sym (ok-injective (g ∷ rest) gs e2)) (
        (resolve-IsAllowed (node_id sha256 h) need g one).1,
        resolve_each-IsAllowed sha256 need hs rest more,
      )

  -- Every host that `resolve_many` returns is one that the caller may act on.
  pub resolve_many-IsAllowed :
      (sha256 : String → String) (before : String → String → Bool) (keys tags : List String)
      (need : String) (gs : List Host)
      → resolve_many c tok hosts sha256 before keys tags need ≡ ok gs
      → All (IsAllowed c tok need) gs
  unfolding resolve_many
  resolve_many-IsAllowed sha256 before keys tags need gs e =
      let (hs, chosen, e1) =
        bind-ok (raise_from inventory (select before keys tags hosts)) _ gs e in
      resolve_each-IsAllowed sha256 need hs gs e1

-- The timeout of a call is at least one second, and at most the configured most or one second.
pub clamp_timeout-bounds :
    (c : Settings) (timeout : Option ℕ)
    → (1 ≤ clamp_timeout c timeout) × (clamp_timeout c timeout ≤ max 1 c.max_timeout)
unfolding clamp_timeout
clamp_timeout-bounds c none = (omega arith, omega arith)
clamp_timeout-bounds c (some t) = (omega arith, omega arith)
