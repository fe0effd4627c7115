-- ===== src/Policy/Guardrails.antt =====
-- What a command that `check_command` of src/vpsmcp/policy.py passes is.
use letkite_lite.Prelude.{
  Bool, true, false, not, ◌&&◌, ◌||◌, String, ◌≡◌, refl, sym, ap, ◌∙◌, List, [], ◌∷◌, any, keep,
  map, mem, if◌then◌else◌, Result, ok, err, ok-injective, err≢ok, bind-ok, Bool-cases, inl, inr,
  ◌⊎◌,
}
use letkite_lite.Prelude.Text.{words, unwords}
use letkite_lite.Inventory.Host.{Host, allows}
use letkite_lite.Policy.{
  Rule, PolicyError, deny, confirm_first, check_deny, check_confirm, check_command, require_scope,
  require_host_scope, guard,
}

module _ (search : Rule → String → Bool) where
  check_deny-any :
      (rules : List Rule) (flat : String)
      → check_deny search rules flat ≡ ok tt
      → any (λ r. search r flat) rules ≡ false
  unfolding check_deny
  check_deny-any [] flat e = refl
  check_deny-any (r ∷ rules) flat e = elim (Bool-cases (search r flat)) [
    | inl hit ↦ err≢ok (rw hit at e)
    | inr miss ↦ rw miss (check_deny-any rules flat (rw miss at e))
  ]

  check_confirm-names :
      (rules : List Rule) (confirm : Bool) (flat : String) (warnings : List String)
      → check_confirm search rules confirm flat ≡ ok warnings
      → (warnings ≡ map (λ r. r.why) (keep (λ r. search r flat) rules))
        × ((confirm ≡ true) ⊎ (any (λ r. search r flat) rules ≡ false))
  unfolding check_confirm
  check_confirm-names [] confirm flat warnings e = (sym (ok-injective [] warnings e), inr refl)
  check_confirm-names (r ∷ rules) true flat warnings e = elim (Bool-cases (search r flat)) [
    | inl hit ↦
        let (ws, rest, e1) =
          bind-ok (check_confirm search rules true flat) (λ ws. ok (r.why ∷ ws)) warnings
            (rw hit at e) in
        let h = check_confirm-names rules true flat ws rest in
        (rw hit (sym (ok-injective (r.why ∷ ws) warnings e1) ∙ ap (λ x. r.why ∷ x) h.0), inl refl)
    | inr miss ↦ let h = check_confirm-names rules true flat warnings (rw miss at e) in rw miss h
  ]
  check_confirm-names (r ∷ rules) false flat warnings e = elim (Bool-cases (search r flat)) [
    | inl hit ↦ err≢ok (rw hit at e)
    | inr miss ↦ let h = check_confirm-names rules false flat warnings (rw miss at e) in rw miss h
  ]

  -- A command that passes the enabled guardrails, its white space made single spaces, matches no rule of
  -- DENY; it matches a rule of CONFIRM only if it is confirmed; and the warnings are the reasons of exactly
  -- the rules of CONFIRM that it matches.
  pub check_command-passed :
      (command : String) (confirm : Bool) (warnings : List String)
      → check_command search command confirm true ≡ ok warnings
      → (any (λ r. search r (unwords (words command))) deny ≡ false)
        × ((confirm ≡ true) ⊎ (any (λ r. search r (unwords (words command))) confirm_first ≡ false))
        × (warnings
            ≡ map (λ r. r.why) (keep (λ r. search r (unwords (words command))) confirm_first))
  unfolding check_command
  check_command-passed command confirm warnings e =
      let flat = unwords (words command) in
      let (u, clear, e1) =
        bind-ok (check_deny search deny flat) (λ u. check_confirm search confirm_first confirm flat)
          warnings e in
      let h = check_confirm-names confirm_first confirm flat warnings e1 in
      (check_deny-any deny flat clear, h.1, h.0)

either :
    (a b : Bool) (x : PolicyError) {u : Unit {0}}
    → Path (Result PolicyError (Unit {0})) (if not a && not b then err x else ok tt) (ok u)
    → a || b ≡ true
either true b x e = refl
either false true x e = refl
either false false x e = err≢ok e

-- `guard` passes only if the token has the scope or is an administrator's, and the host grants the scope or
-- grants administration.
pub guard-both :
    (token : List String) (host : Host) (needed : String)
    → guard token host needed ≡ ok tt
    → (mem needed token || mem "fleet.admin" token ≡ true)
      × (allows host needed || allows host "fleet.admin" ≡ true)
unfolding guard require_scope require_host_scope
guard-both token host needed e =
    let (u, first, second) =
      bind-ok (require_scope token needed) (λ u. require_host_scope host needed) tt e in
    (either (mem needed token) _ _ first, either (allows host needed) _ _ second)
