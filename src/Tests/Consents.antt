-- ===== src/Tests/Consents.antt =====
-- The authorization endpoint and the scopes on a small server.
use letkite_lite.Prelude.{
  ◌+◌, ◌-◌, ◌^◌, min, true, false, String, ◌≡◌, ◌≢◌, refl, ◌⊎◌, some, find, [], ◌∷◌, mem, arith,
  All,
}
use letkite_lite.Prelude.Text.{words, IsWord, words-IsWord}
use letkite_lite.Settings.{scopes, resource_url}
use letkite_lite.Auth.Store
use letkite_lite.Auth.Store.{Store, CodeRow}
use letkite_lite.Auth.Store.Codes.{has_code_hash}
use letkite_lite.Auth.Store.Logins.{login_failed, login_locked, login_lock}
use letkite_lite.Auth.Store.Lockout.{failures, login_locked-login_failed}
use letkite_lite.Auth.OAuth.{World, form_get}
use letkite_lite.Auth.OAuth.Scopes.{norm_scopes, refresh_scope, access_scope}
use letkite_lite.Auth.OAuth.Narrowing.{access_scope-refresh_scope}
use letkite_lite.Auth.OAuth.Authorize.{authorize, bounce_code}
use letkite_lite.Auth.OAuth.Authorize.Consent.{
  Approved, authorize-Approved, authorize-requires_pkce, authorize-scope,
}
use letkite_lite.Tests.Setting.{toy, demo, before, approval}

abbrev read_scope : String
read_scope = "fleet.read"

abbrev after_approval : World
after_approval = (authorize toy demo approval before).1

first_approval :
    authorize toy demo approval before
    ≡ (bounce_code "https://app.test/cb" "new-code", after_approval)
unfolding authorize letkite_lite.Auth.OAuth.Authorize.resolve_client
    letkite_lite.Auth.Store.Clients.get_client form_get
    letkite_lite.Auth.OAuth.Callbacks.match_redirect letkite_lite.Auth.OAuth.Callbacks.match_raises
    letkite_lite.Auth.OAuth.Authorize.redirect_ok letkite_lite.Auth.OAuth.Callbacks.redirect_allowed
    letkite_lite.Auth.OAuth.Callbacks.server_prefixes
    letkite_lite.Settings.allowed_redirect_prefixes letkite_lite.Auth.Profiles.redirects_for
    letkite_lite.Auth.OAuth.Authorize.request_error letkite_lite.Settings.resource_ok
    letkite_lite.Auth.OAuth.Cookies.current_subject letkite_lite.Auth.OAuth.Cookies.unsign
    letkite_lite.Auth.Store.Logins.get_session words norm_scopes
    letkite_lite.Auth.Store.Codes.put_code
first_approval = refl

authorize-Approved_example :
    Approved toy demo approval before after_approval "https://app.test/cb" "new-code"
authorize-Approved_example =
    authorize-Approved toy demo approval before after_approval "https://app.test/cb" "new-code"
      first_approval

authorize-requires_pkce_example :
    (form_get "code_challenge_method" approval.params ≡ "S256")
    × (form_get "code_challenge" approval.params ≢ "")
authorize-requires_pkce_example =
    authorize-requires_pkce toy demo approval before after_approval "https://app.test/cb" "new-code"
      refl first_approval

abbrev stored_code : CodeRow
stored_code = record {
  code_hash = "new-code";
  client_id = "app";
  redirect_uri = "https://app.test/cb";
  scope = "fleet.read";
  challenge = "proof";
  challenge_method = "S256";
  resource = some (resource_url demo);
  subject = "ops";
  expires_at = 100 + demo.code_ttl;
  used = false;
}

found_code :
    find (has_code_hash (toy.sha "new-code")) after_approval.store.auth_codes ≡ some stored_code
unfolding authorize letkite_lite.Auth.OAuth.Authorize.resolve_client
    letkite_lite.Auth.Store.Clients.get_client form_get
    letkite_lite.Auth.OAuth.Callbacks.match_raises letkite_lite.Auth.OAuth.Callbacks.match_redirect
    letkite_lite.Auth.OAuth.Authorize.redirect_ok letkite_lite.Auth.OAuth.Callbacks.redirect_allowed
    letkite_lite.Auth.OAuth.Callbacks.server_prefixes
    letkite_lite.Settings.allowed_redirect_prefixes letkite_lite.Auth.Profiles.redirects_for
    letkite_lite.Auth.OAuth.Authorize.request_error letkite_lite.Settings.resource_ok
    letkite_lite.Auth.OAuth.Cookies.current_subject letkite_lite.Auth.OAuth.Cookies.unsign
    letkite_lite.Auth.Store.Logins.get_session words norm_scopes
    letkite_lite.Auth.Store.Codes.put_code letkite_lite.Auth.OAuth.Authorize.code_fields
found_code = refl

authorize-scope_example :
    ((mem "fleet.read" scopes ≡ true) ⊎ (read_scope ≡ "offline_access"))
    × ((read_scope ≡ "offline_access") ⊎ (form_get "scope_fleet.read" approval.params ≢ ""))
unfolding words
authorize-scope_example =
    authorize-scope toy demo approval before after_approval "https://app.test/cb" "new-code"
      "fleet.read" stored_code first_approval found_code refl

access_scope-refresh_scope_example :
    (mem "fleet.read" (words "fleet.read offline_access") ≡ true) × (read_scope ≢ "offline_access")
unfolding words access_scope refresh_scope
access_scope-refresh_scope_example =
    access_scope-refresh_scope "fleet.read fleet.exec" "fleet.read offline_access" scopes
      "fleet.read" refl

one_scope-IsWord : All IsWord ("fleet.read" ∷ [])
unfolding words
one_scope-IsWord = words-IsWord "fleet.read"

abbrev four_failures : Store
four_failures = record Store.empty {
  login_attempts = (record { ip = "10.0.0.9"; fails = 4; locked_until = 0 }) ∷ [];
}

login_locked-login_failed_example :
    login_locked "10.0.0.9" 110 (login_failed "10.0.0.9" 100 four_failures)
    ≡ 100 + 2 ^ min (failures "10.0.0.9" four_failures + 1) 9 - 110
login_locked-login_failed_example =
    login_locked-login_failed "10.0.0.9" 100 110 four_failures (omega arith)
