-- ===== src/Auth/History/Spent.antt =====
-- No sequence of requests gets tokens twice for one authorization code.
use letkite_lite.Prelude.{
  ℕ, String, ◌==◌, ◌≡◌, ◌≢◌, inl, inr, refl, sym, ap, ◌∙◌, Option, none, some, List, [], ◌∷◌, arith,
  Bool-cases, not, keep, All,
}
use letkite_lite.Settings.{Settings}
use letkite_lite.Auth.Store.{Store, CodeRow}
use letkite_lite.Auth.Store.Codes.{take_code, Taken}
use letkite_lite.Auth.Store.Refresh.{
  put_refresh, take_refresh, Presented, revoke_family, revoke_refresh,
}
use letkite_lite.Auth.Store.Logins
use letkite_lite.Auth.Store.Logins.{clear_login_locks}
use letkite_lite.Auth.Store.Clients.{put_client, delete_client}
use letkite_lite.Auth.Store.Redirects.{
  note_rejected_redirect, allow_redirect, disallow_redirect, clear_rejected_redirects,
}
use letkite_lite.Auth.Store.SingleUse.{
  IsSpent, take_code-IsSpent, IsSpent-take_code, take_code-keeps-IsSpent, gc-keeps-IsSpent,
}
use letkite_lite.Auth.OAuth.{External, World, Form, form_get}
use letkite_lite.Auth.OAuth.Token.{
  TokenRequest, granted, token, revoke, issue, grant_code, grant_refresh, Grant, parse_body,
  client_credentials, client_auth_ok, after_code, after_refresh, code_grant, refresh_grant,
  by_grant_type, with_form, Parsed,
}
use letkite_lite.Auth.OAuth.Authorize.{reject_redirect, redirect_ok}
use letkite_lite.Auth.OAuth.Token.CodeGrant.{after_code-granted}
use letkite_lite.Auth.OAuth.Login.{LoginRequest, login}
use letkite_lite.Auth.OAuth.Register.{
  RegisterRequest, RegisterBody, register, reject_all, vet, with_uris, with_body, name_of,
}
use letkite_lite.Auth.History.{
  Call, step, run, to_token, to_revoke, to_authorize, to_login, to_register, collect, remove_client,
  cut_family, allow, disallow, unlock, clear_rejects,
}
use letkite_lite.Auth.History.Codes.{authorize-keeps}

auth_codes-clear_login_locks :
    (ip : Option String) (s : Store) → (clear_login_locks ip s).1.auth_codes ≡ s.auth_codes
unfolding clear_login_locks
auth_codes-clear_login_locks none s = refl
auth_codes-clear_login_locks (some ip) s = ground arith

module _ (x : External) (c : Settings) where
  auth_codes-revoke :
      (req : TokenRequest) (w : World) → (revoke x c req w).store.auth_codes ≡ w.store.auth_codes
  unfolding revoke revoke_refresh
  auth_codes-revoke req w = ground arith

  auth_codes-issue :
      (req : TokenRequest) (g : Grant) (w : World)
      → (issue x c req g w).1.store.auth_codes ≡ w.store.auth_codes
  unfolding issue put_refresh
  auth_codes-issue req g w = ground arith

  auth_codes-after_code :
      (req : TokenRequest) (form : Form) (client_id : String) (taken : Taken) (w : World)
      → (after_code x c req form client_id taken w).1.store.auth_codes ≡ w.store.auth_codes
  auth_codes-after_code req form client_id Taken.unknown w = refl
  auth_codes-after_code req form client_id (Taken.replayed row) w = refl
  auth_codes-after_code req form client_id (Taken.fresh row) w =
      ground (arith, auth_codes-issue req (code_grant x row client_id (form_get "code" form)) w)

  grant_code-keeps :
      (h : String) (req : TokenRequest) (form : Form) (client_id : String) (w : World)
      → IsSpent h w.store
      → IsSpent h (grant_code x c req form client_id w).1.store
  unfolding grant_code
  grant_code-keeps h req form client_id w spent =
      let taken = take_code x.sha (form_get "code" form) w.store in
      rw (auth_codes-after_code req form client_id taken.0 (record w { store = taken.1 }))
        (take_code-keeps-IsSpent x.sha h (form_get "code" form) w.store spent)

  auth_codes-after_refresh :
      (req : TokenRequest) (form : Form) (client_id : String) (p : Presented) (w : World)
      → (after_refresh x c req form client_id p w).1.store.auth_codes ≡ w.store.auth_codes
  auth_codes-after_refresh req form client_id Presented.unknown w = refl
  auth_codes-after_refresh req form client_id (Presented.reused row) w = refl
  auth_codes-after_refresh req form client_id (Presented.rotated row) w =
      ground (arith, auth_codes-issue req (refresh_grant form row) w)

  auth_codes-take_refresh :
      (token : String) (s : Store) → (take_refresh x.sha token s).1.auth_codes ≡ s.auth_codes
  unfolding take_refresh
  auth_codes-take_refresh token s = ground arith

  auth_codes-grant_refresh :
      (req : TokenRequest) (form : Form) (client_id : String) (w : World)
      → (grant_refresh x c req form client_id w).1.store.auth_codes ≡ w.store.auth_codes
  unfolding grant_refresh
  auth_codes-grant_refresh req form client_id w =
      let rt = form_get "refresh_token" form in
      let taken = take_refresh x.sha rt w.store in
      ground (
        arith,
        auth_codes-take_refresh rt w.store,
        auth_codes-after_refresh req form client_id taken.0 (record w { store = taken.1 }),
      )

  token-keeps :
      (h : String) (req : TokenRequest) (w : World)
      → IsSpent h w.store
      → IsSpent h (token x c req w).1.store
  unfolding token
  token-keeps h req w spent = with_form_keeps (parse_body c req)
    where
      same : (v : World) → v.store.auth_codes ≡ w.store.auth_codes → IsSpent h v.store
      same v e = rw e spent

      by_grant :
          (form : Form) (client_id : String)
          → IsSpent h (by_grant_type x c req form client_id w).1.store
      by_grant form client_id =
          elim (Bool-cases (form_get "grant_type" form == "authorization_code")) [
            | inl code ↦ rw code (grant_code-keeps h req form client_id w spent)
            | inr other ↦ elim (Bool-cases (form_get "grant_type" form == "refresh_token")) [
              | inl renew ↦
                  rw (other, renew)
                    (same (grant_refresh x c req form client_id w).1
                      (auth_codes-grant_refresh req form client_id w))
              | inr none_such ↦ rw (other, none_such) spent
            ]
          ]

      with_form_keeps : (p : Parsed) → IsSpent h (with_form x c req p w).1.store
      with_form_keeps (inr e) = spent
      with_form_keeps (inl form) =
          let (client_id, secret) = client_credentials x req form in
          elim (Bool-cases (client_auth_ok x client_id secret w.store)) [
            | inl accepted ↦ rw accepted (by_grant form client_id)
            | inr denied ↦ rw denied spent
          ]

  auth_codes-login :
      (req : LoginRequest) (w : World) → (login x c req w).1.store.auth_codes ≡ w.store.auth_codes
  unfolding login Logins.login_failed Logins.login_ok Logins.put_session
  auth_codes-login req w = ground arith

  auth_codes-reject_all :
      (us : List String) (name : String) (req : RegisterRequest) (w : World)
      → (reject_all x c us name req w).store.auth_codes ≡ w.store.auth_codes
  auth_codes-reject_all [] name req w = refl
  auth_codes-reject_all (u ∷ us) name req w =
      auth_codes-reject_all us name req (reject_redirect x c u name req.source req.clock w)
      ∙ (unfold reject_redirect note_rejected_redirect in refl)

  auth_codes-vet :
      (req : RegisterRequest) (b : RegisterBody) (bad : List String) (w : World)
      → (vet x c req b bad w).1.store.auth_codes ≡ w.store.auth_codes
  auth_codes-vet req b [] w = unfold put_client in refl
  auth_codes-vet req b (u ∷ us) w = auth_codes-reject_all (u ∷ us) (name_of x c b) req w

  auth_codes-with_uris :
      (req : RegisterRequest) (b : RegisterBody) (uris : List String) (w : World)
      → (with_uris x c req b uris w).1.store.auth_codes ≡ w.store.auth_codes
  auth_codes-with_uris req b [] w = refl
  auth_codes-with_uris req b (u ∷ us) w =
      auth_codes-vet req b (keep (λ v. not (redirect_ok x c v w.store)) (u ∷ us)) w

  auth_codes-with_body :
      (req : RegisterRequest) (b : Option RegisterBody) (w : World)
      → (with_body x c req b w).1.store.auth_codes ≡ w.store.auth_codes
  auth_codes-with_body req none w = refl
  auth_codes-with_body req (some b) w = auth_codes-with_uris req b b.redirect_uris w

  auth_codes-register :
      (req : RegisterRequest) (w : World)
      → (register x c req w).1.store.auth_codes ≡ w.store.auth_codes
  unfolding register
  auth_codes-register req w = ground (arith, auth_codes-with_body req req.body w)

  -- Does this request make a code under that hash?
  abbrev pub Mints : String → Call → Type 0
  Mints h (to_authorize req) = h ≡ x.sha req.fresh.code
  Mints h _ = ⊥

  step-keeps :
      (h : String) (call : Call) (w : World)
      → ¬ Mints h call
      → IsSpent h w.store
      → IsSpent h (step x c call w).store
  unfolding step
  step-keeps h (to_token req) w other spent = token-keeps h req w spent
  step-keeps h (to_revoke req) w other spent = rw (auth_codes-revoke req w) spent
  step-keeps h (to_authorize req) w other spent = authorize-keeps x c h req w other spent
  step-keeps h (to_login req) w other spent = rw (auth_codes-login req w) spent
  step-keeps h (to_register req) w other spent = rw (auth_codes-register req w) spent
  step-keeps h (collect now) w other spent = gc-keeps-IsSpent h now w.store spent
  step-keeps h (remove_client id) w other spent = unfold delete_client in spent
  step-keeps h (cut_family f) w other spent = unfold revoke_family in spent
  step-keeps h (allow prefix note now) w other spent = unfold allow_redirect in spent
  step-keeps h (disallow prefix) w other spent = unfold disallow_redirect in spent
  step-keeps h (unlock ip) w other spent = rw (auth_codes-clear_login_locks ip w.store) spent
  step-keeps h clear_rejects w other spent = unfold clear_rejected_redirects in spent

  pub run-keeps :
      (h : String) (calls : List Call) (w : World)
      → All (λ call. ¬ Mints h call) calls
      → IsSpent h w.store
      → IsSpent h (run x c calls w).store
  unfolding run
  run-keeps h [] w others spent = spent
  run-keeps h (call ∷ calls) w others spent =
      run-keeps h calls (step x c call w) others.1 (step-keeps h call w others.0 spent)

  grant_code-taken :
      (req : TokenRequest) (form : Form) (client_id : String) (w w' : World)
      (access refresh scope : String) (ttl : ℕ)
      → grant_code x c req form client_id w ≡ (granted access refresh scope ttl, w')
      → (row : CodeRow) × ((take_code x.sha (form_get "code" form) w.store).0 ≡ Taken.fresh row)
  unfolding grant_code
  grant_code-taken req form client_id w w' access refresh scope ttl e =
      let taken = take_code x.sha (form_get "code" form) w.store in
      let (row, fresh, _, _) =
        after_code-granted x c req form client_id taken.0 (record w { store = taken.1 }) w' access
          refresh scope ttl e in
      (row, fresh)

  grant_code-IsSpent :
      (req : TokenRequest) (form : Form) (client_id : String) (w w' : World)
      (access refresh scope : String) (ttl : ℕ)
      → grant_code x c req form client_id w ≡ (granted access refresh scope ttl, w')
      → IsSpent (x.sha (form_get "code" form)) w'.store
  unfolding grant_code
  grant_code-IsSpent req form client_id w w' access refresh scope ttl e =
      let code = form_get "code" form in
      let taken = take_code x.sha code w.store in
      let between : World = record w { store = taken.1 } in
      let (row, fresh) = grant_code-taken req form client_id w w' access refresh scope ttl e in
      let untouched : w'.store.auth_codes ≡ taken.1.auth_codes =
        sym (ap (λ p. p.1.store.auth_codes) e)
        ∙ auth_codes-after_code req form client_id taken.0 between in
      rw untouched (take_code-IsSpent x.sha code w.store row fresh)

  -- Once tokens were issued for a code, no later request gets any for it, whatever requests and
  -- commands come in between, as long as no new code has the same hash.
  pub code_single_use :
      (req again : TokenRequest) (form form' : Form) (client_id client_id' : String)
      (w w' w'' : World) (calls : List Call) (access refresh scope access' refresh' scope' : String)
      (ttl ttl' : ℕ)
      → grant_code x c req form client_id w ≡ (granted access refresh scope ttl, w')
      → All (λ call. ¬ Mints (x.sha (form_get "code" form)) call) calls
      → form_get "code" form' ≡ form_get "code" form
      → grant_code x c again form' client_id' (run x c calls w')
        ≢ (granted access' refresh' scope' ttl', w'')
  code_single_use req again form form' client_id client_id' w w' w'' calls access refresh scope
        access' refresh' scope' ttl ttl' first others same second =
      let (row, fresh) =
        grant_code-taken again form' client_id' (run x c calls w') w'' access' refresh' scope' ttl'
          second in
      let spent =
        run-keeps (x.sha (form_get "code" form)) calls w' others
          (grant_code-IsSpent req form client_id w w' access refresh scope ttl first) in
      IsSpent-take_code x.sha (form_get "code" form') (run x c calls w').store row (rw same spent)
        fresh
