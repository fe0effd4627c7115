-- ===== src/Auth/OAuth/Token/CodeGrant.antt =====
-- When the authorization_code grant issues tokens, and when it does not.
use letkite_lite.Prelude.{
  ℕ, ◌*◌, ◌≤◌, true, false, String, ◌==◌, ◌≡◌, ◌≢◌, ◌⊎◌, refl, ap, some, arith, eq_iff, find, any,
  if◌then◌else◌,
}
use letkite_lite.Prelude.Text.{compare_digest}
use letkite_lite.Settings.{Settings, resource_ok}
use letkite_lite.Auth.Store.{CodeRow}
use letkite_lite.Auth.Store.Codes.{Taken, take_code, has_code_hash}
use letkite_lite.Auth.Store.SingleUse.{take_code-fresh}
use letkite_lite.Auth.Store.Refresh.{put_refresh, has_token_hash}
use letkite_lite.Auth.OAuth.{seconds, External, World, Form, form_get}
use letkite_lite.Auth.OAuth.Scopes.{access_scope, or_else}
use letkite_lite.Auth.OAuth.Token.{
  TokenRequest, granted, pass, pkce_verified, code_verdict, resource_of, method_of, digest_matches,
  issue, Grant, code_grant, after_code, grant_code, claims_of, refresh_fields,
}

digest_matches-true :
    (verifier text challenge : String)
    → digest_matches verifier text challenge ≡ some true
    → (verifier ≢ "") × (text ≡ challenge)
unfolding compare_digest
digest_matches-true verifier text challenge e =
    ground (arith, eq_iff verifier "", eq_iff text challenge)

method_of-s256 : (row : CodeRow) → row.challenge_method ≡ "S256" → method_of row ≡ "S256"
method_of-s256 row e = ap (λ m. or_else m (if row.challenge == "" then "none" else "S256")) e

module _ (x : External) (c : Settings) where
  -- What a code must meet, with the request that presents it.
  pub record Meets (form : Form) (client_id : String) (clock : ℕ) (row : CodeRow) : Type 0 where
    pub in_time : clock ≤ row.expires_at * 1000
    pub same_client : row.client_id ≡ client_id
    pub same_redirect :
        (form_get "redirect_uri" form ≡ "") ⊎ (form_get "redirect_uri" form ≡ row.redirect_uri)
    pub verified : pkce_verified x c row (form_get "code_verifier" form) ≡ some true
    pub target : resource_ok c (some (resource_of c form row)) ≡ true

  pub code_verdict-pass :
      (form : Form) (client_id : String) (clock : ℕ) (row : CodeRow)
      → code_verdict x c form client_id clock row ≡ pass
      → Meets form client_id clock row
  unfolding code_verdict
  code_verdict-pass form client_id clock row e = ground (
    arith,
    eq_iff row.client_id client_id,
    eq_iff (form_get "redirect_uri" form) "",
    eq_iff (form_get "redirect_uri" form) row.redirect_uri,
  )

  pub Meets-code_verdict :
      (form : Form) (client_id : String) (clock : ℕ) (row : CodeRow)
      → Meets form client_id clock row
      → code_verdict x c form client_id clock row ≡ pass
  unfolding code_verdict
  Meets-code_verdict form client_id clock row m = ground (
    arith,
    eq_iff row.client_id client_id,
    eq_iff (form_get "redirect_uri" form) "",
    eq_iff (form_get "redirect_uri" form) row.redirect_uri,
  )

  -- What a successful `_issue` returns.
  pub issue-granted :
      (req : TokenRequest) (g : Grant) (w w' : World) (access refresh scope : String) (ttl : ℕ)
      → issue x c req g w ≡ (granted access refresh scope ttl, w')
      → (access ≡ x.sign (claims_of c req g))
        × (refresh ≡ req.fresh.refresh_token)
        × (scope ≡ access_scope g.scope)
        × (ttl ≡ c.access_ttl)
        × (put_refresh x.sha req.fresh.refresh_token
              (refresh_fields c req g)
              (seconds req.clock)
              w.store
            ≡ some w'.store)
  unfolding issue
  issue-granted req g w w' access refresh scope ttl e = ground arith

  pub after_code-granted :
      (req : TokenRequest) (form : Form) (client_id : String) (taken : Taken) (w w' : World)
      (access refresh scope : String) (ttl : ℕ)
      → after_code x c req form client_id taken w ≡ (granted access refresh scope ttl, w')
      → (row : CodeRow) × (taken ≡ Taken.fresh row)
        × (code_verdict x c form client_id req.clock row ≡ pass)
        × (issue x c req (code_grant x row client_id (form_get "code" form)) w
            ≡ (granted access refresh scope ttl, w'))
  after_code-granted req form client_id Taken.unknown w w' access refresh scope ttl e = cc
  after_code-granted req form client_id (Taken.replayed row) w w' access refresh scope ttl e = cc
  after_code-granted req form client_id (Taken.fresh row) w w' access refresh scope ttl e =
      (row, refl, ground arith, ground arith)

  -- Tokens are issued for a code only if the code is in the table, was never used, meets every
  -- check of the request, and the access token carries the code's own scope and subject.
  pub grant_code-granted :
      (req : TokenRequest) (form : Form) (client_id : String) (w w' : World)
      (access refresh scope : String) (ttl : ℕ)
      → grant_code x c req form client_id w ≡ (granted access refresh scope ttl, w')
      → (row : CodeRow) × (find (has_code_hash (x.sha (form_get "code" form))) w.store.auth_codes
          ≡ some row)
        × (row.used ≡ false)
        × Meets form client_id req.clock row
        × (scope ≡ access_scope row.scope)
        × (access ≡ x.sign (claims_of c req (code_grant x row client_id (form_get "code" form))))
  unfolding grant_code
  grant_code-granted req form client_id w w' access refresh scope ttl e =
      let code = form_get "code" form in
      let taken = take_code x.sha code w.store in
      let (row, fresh, passed, done) =
        after_code-granted req form client_id taken.0 (record w { store = taken.1 }) w' access
          refresh scope ttl e in
      let (found, unused, _) = take_code-fresh x.sha code w.store row fresh in
      let (signed, _, scoped, _, _) =
        issue-granted req (code_grant x row client_id code) (record w { store = taken.1 }) w' access
          refresh scope ttl done in
      (row, found, unused, code_verdict-pass form client_id req.clock row passed, scoped, signed)

  -- The other way round: a code that meets the checks is exchanged for tokens, unless the new
  -- refresh token is in the table already.
  pub grant_code-grants :
      (req : TokenRequest) (form : Form) (client_id : String) (w : World) (row : CodeRow)
      → find (has_code_hash (x.sha (form_get "code" form))) w.store.auth_codes ≡ some row
      → row.used ≡ false
      → Meets form client_id req.clock row
      → any (has_token_hash (x.sha req.fresh.refresh_token)) w.store.refresh_tokens ≡ false
      → (grant_code x c req form client_id w).0
        ≡ granted
            (x.sign (claims_of c req (code_grant x row client_id (form_get "code" form))))
            req.fresh.refresh_token
            (access_scope row.scope)
            c.access_ttl
  unfolding grant_code take_code put_refresh
  grant_code-grants req form client_id w row found unused m free =
      ground (arith, Meets-code_verdict form client_id req.clock row m)

  s256_verified :
      (form : Form) (row : CodeRow)
      → row.challenge_method ≡ "S256"
      → pkce_verified x c row (form_get "code_verifier" form) ≡ some true
      → (form_get "code_verifier" form ≢ "")
        × (x.challenge_of (form_get "code_verifier" form) ≡ row.challenge)
  unfolding pkce_verified
  s256_verified form row s256 e =
      let verifier = form_get "code_verifier" form in
      digest_matches-true verifier (x.challenge_of verifier) row.challenge
        (rw (method_of-s256 row s256) at e)

  -- With an S256 challenge, tokens are issued only to who presents a text with that challenge.
  pub grant_code_proof_of_possession :
      (req : TokenRequest) (form : Form) (client_id : String) (w w' : World) (row : CodeRow)
      (access refresh scope : String) (ttl : ℕ)
      → grant_code x c req form client_id w ≡ (granted access refresh scope ttl, w')
      → find (has_code_hash (x.sha (form_get "code" form))) w.store.auth_codes ≡ some row
      → row.challenge_method ≡ "S256"
      → (form_get "code_verifier" form ≢ "")
        × (x.challenge_of (form_get "code_verifier" form) ≡ row.challenge)
  grant_code_proof_of_possession req form client_id w w' row access refresh scope ttl e found s256 =
      let (row', found', unused, meets, _, _) =
        grant_code-granted req form client_id w w' access refresh scope ttl e in
      let same : row' ≡ row = cc (found, found') in
      s256_verified form row s256 (rw (← same) meets.verified)
