-- ===== src/Auth/History/Codes.antt =====
-- The authorization endpoint adds at most the one code that it hands out.
use letkite_lite.Prelude.{
  ℕ, String, ◌==◌, ◌≡◌, ◌≢◌, inl, inr, refl, sym, Option, none, some, List, arith, Bool-cases, not,
  any,
}
use letkite_lite.Settings.{Settings, scopes}
use letkite_lite.Auth.Store.{Store, Metadata, ClientRow}
use letkite_lite.Auth.Store.Clients.{put_client, get_client}
use letkite_lite.Auth.Store.Codes.{put_code}
use letkite_lite.Auth.Store.Redirects.{note_rejected_redirect}
use letkite_lite.Auth.Store.SingleUse.{IsSpent, put_code-keeps-IsSpent}
use letkite_lite.Auth.OAuth.{External, World, form_get, ErrorCode}
use letkite_lite.Auth.OAuth.Cookies.{Checked, ok, raised, current_subject}
use letkite_lite.Auth.OAuth.Authorize.{
  AuthorizeRequest, authorize, approve, resolve_client, resolve_row, code_fields, picked,
  reject_redirect, with_code, with_subject, after_checks, for_client, request_error, guess_client,
}
use letkite_lite.Auth.OAuth.Scopes.{norm_scopes, or_else}

module _ (x : External) (c : Settings) (h : String) where
  with_code-keeps :
      (req : AuthorizeRequest) (subject : String) (granted : List String) (o : Option Store)
      (w : World)
      → o ≡ put_code x.sha req.fresh.code (code_fields x c req subject granted) w.store
      → h ≢ x.sha req.fresh.code
      → IsSpent h w.store
      → IsSpent h (with_code x c req subject granted o w).1.store
  with_code-keeps req subject granted none w e other spent = spent
  with_code-keeps req subject granted (some s) w e other spent =
      put_code-keeps-IsSpent x.sha h req.fresh.code (code_fields x c req subject granted) w.store s
        other (sym e) spent

  approve-keeps :
      (req : AuthorizeRequest) (subject scope : String) (w : World)
      → h ≢ x.sha req.fresh.code
      → IsSpent h w.store
      → IsSpent h (approve x c req subject scope w).1.store
  unfolding approve
  approve-keeps req subject scope w other spent =
      let granted = picked x c req.params scope in
      elim (Bool-cases (any (λ s. not (s == "offline_access")) granted)) [
        | inl some_scope ↦ rw some_scope (with_code-keeps req subject granted _ w refl other spent)
        | inr no_scope ↦ rw no_scope spent
      ]

  with_subject-keeps :
      (req : AuthorizeRequest) (who : Checked (Option String)) (w : World)
      → h ≢ x.sha req.fresh.code
      → IsSpent h w.store
      → IsSpent h (with_subject x c req who w).1.store
  with_subject-keeps req raised w other spent = spent
  with_subject-keeps req (ok none) w other spent = spent
  with_subject-keeps req (ok (some subject)) w other spent = ground (
    arith,
    approve-keeps req subject (norm_scopes (form_get "scope" req.params) scopes) w other spent,
  )

  after_checks-keeps :
      (req : AuthorizeRequest) (o : Option ErrorCode) (w : World)
      → h ≢ x.sha req.fresh.code
      → IsSpent h w.store
      → IsSpent h (after_checks x c req o w).1.store
  after_checks-keeps req (some e) w other spent = spent
  after_checks-keeps req none w other spent =
      with_subject-keeps req (current_subject x req.cookie req.clock w.store) w other spent

  reject_redirect-keeps :
      (uri name : String) (req : AuthorizeRequest) (w : World)
      → IsSpent h w.store
      → IsSpent h (reject_redirect x c uri name req.source req.clock w).store
  unfolding reject_redirect note_rejected_redirect
  reject_redirect-keeps uri name req w spent = spent

  for_client-keeps :
      (req : AuthorizeRequest) (m : Option Metadata) (w : World)
      → h ≢ x.sha req.fresh.code
      → IsSpent h w.store
      → IsSpent h (for_client x c req m w).1.store
  for_client-keeps req none w other spent =
      let uri = form_get "redirect_uri" req.params in
      ground (arith, reject_redirect-keeps uri (guess_client x c uri) req w spent)
  for_client-keeps req (some meta) w other spent =
      let uri = form_get "redirect_uri" req.params in
      ground (
        arith,
        reject_redirect-keeps uri (or_else meta.client_name (guess_client x c uri)) req w spent,
        after_checks-keeps req (request_error x c req.params) w other spent,
      )

  auth_codes-resolve_row :
      (id : String) (clock : ℕ) (o : Option ClientRow) (s : Store)
      → (resolve_row x c id clock o s).1.auth_codes ≡ s.auth_codes
  unfolding put_client
  auth_codes-resolve_row id clock o s = ground arith

  pub authorize-keeps :
      (req : AuthorizeRequest) (w : World)
      → h ≢ x.sha req.fresh.code
      → IsSpent h w.store
      → IsSpent h (authorize x c req w).1.store
  unfolding authorize resolve_client
  authorize-keeps req w other spent =
      let id = form_get "client_id" req.params in
      let found = resolve_row x c id req.clock (get_client id w.store) w.store in
      for_client-keeps req found.0 (record w { store = found.1 }) other
        (rw (auth_codes-resolve_row id req.clock (get_client id w.store) w.store) spent)
