-- ===== src/Tests/Grants.antt =====
-- The token endpoint on a small server.
use letkite_lite.Prelude.{
  ℕ, Bool, false, String, ◌≡◌, ◌≢◌, refl, sym, ap, Option, none, some, List, [], ◌∷◌, All, find,
  any, arith, ltb, inl, inr,
}
use text.Mathlib.TextLemmas.{cons≢nil}
use letkite_lite.Auth.Store.{CodeRow, RefreshRow}
use letkite_lite.Auth.Store.Codes.{take_code, has_code_hash}
use letkite_lite.Auth.Store.Families.{FamilyIsRevoked}
use letkite_lite.Auth.History.{run, collect, remove_client}
use letkite_lite.Auth.History.Spent.{code_single_use}
use letkite_lite.Auth.OAuth.Scopes.{access_scope}
use letkite_lite.Auth.OAuth.Token.RefreshGrant.{Rotated, grant_refresh-Rotated, refresh_twice}
use letkite_lite.Auth.OAuth.Token.Confidential.{token-confidential}
use letkite_lite.Auth.OAuth.{World, invalid_grant, form_get}
use letkite_lite.Auth.OAuth.Token.{
  granted, refused, grant_code, grant_refresh, token, client_credentials, claims_of, code_grant,
}
use letkite_lite.Auth.OAuth.Token.CodeGrant.{
  grant_code-granted, grant_code_proof_of_possession, grant_code-grants, Meets,
}
use letkite_lite.Tests.Setting.{
  toy, demo, app, before, code_row, code_form, refresh_form, request_with,
}

abbrev after_code : World
after_code = (grant_code toy demo (request_with code_form "r1") code_form "app" before).1

first_grant :
    grant_code toy demo (request_with code_form "r1") code_form "app" before
    ≡ (granted "fleet.read" "r1" "fleet.read" 600, after_code)
unfolding grant_code take_code letkite_lite.Auth.OAuth.form_get
    letkite_lite.Auth.OAuth.Token.pkce_verified letkite_lite.Prelude.Text.compare_digest
    letkite_lite.Settings.resource_ok letkite_lite.Settings.resource_url
    letkite_lite.Prelude.Text.rstrip_slash letkite_lite.Settings.resource_aliases
    letkite_lite.Auth.Store.Refresh.put_refresh letkite_lite.Auth.OAuth.Scopes.access_scope
first_grant = refl

never : ¬ ⊥
never e = e

-- A code that is exchanged is not exchanged again after other calls.
code_single_use_example :
    grant_code toy demo
      (request_with code_form "r2")
      code_form
      "app"
      (run toy demo (collect 5 ∷ remove_client "other" ∷ []) after_code)
    ≢ (granted "fleet.read" "r2" "fleet.read" 600, before)
code_single_use_example =
    code_single_use toy demo (request_with code_form "r1") (request_with code_form "r2") code_form
      code_form "app" "app" before after_code before (collect 5 ∷ remove_client "other" ∷ [])
      "fleet.read" "r1" "fleet.read" "fleet.read" "r2" "fleet.read" 600 600 first_grant
      (never, (never, tt)) refl

grant_code_proof_of_possession_example :
    (form_get "code_verifier" code_form ≢ "")
    × (toy.challenge_of (form_get "code_verifier" code_form) ≡ "proof")
unfolding form_get
grant_code_proof_of_possession_example =
    grant_code_proof_of_possession toy demo (request_with code_form "r1") code_form "app" before
      after_code code_row "fleet.read" "r1" "fleet.read" 600 first_grant refl refl

code_row-Meets : Meets toy demo code_form "app" 100000 code_row
unfolding form_get letkite_lite.Auth.OAuth.Token.pkce_verified
    letkite_lite.Prelude.Text.compare_digest letkite_lite.Settings.resource_ok
    letkite_lite.Settings.resource_url letkite_lite.Prelude.Text.rstrip_slash
    letkite_lite.Settings.resource_aliases
code_row-Meets = record {
  in_time = omega arith;
  same_client = refl;
  same_redirect = inl refl;
  verified = refl;
  target = refl;
}

grant_code-grants_example :
    (grant_code toy demo (request_with code_form "r1") code_form "app" before).0
    ≡ granted
        (toy.sign (
          claims_of demo
            (request_with code_form "r1")
            (code_grant toy code_row "app" (form_get "code" code_form))))
        "r1"
        (access_scope "fleet.read offline_access")
        600
unfolding form_get
grant_code-grants_example =
    grant_code-grants toy demo (request_with code_form "r1") code_form "app" before code_row refl
      refl code_row-Meets refl

grant_code-granted_example :
    (row : CodeRow) × (find
        (has_code_hash (toy.sha (form_get "code" code_form)))
        before.store.auth_codes
      ≡ some row)
    × (row.used ≡ false)
    × Meets toy demo code_form "app" 100000 row
    × ("fleet.read" ≡ access_scope row.scope)
    × ("fleet.read"
        ≡ toy.sign (
            claims_of demo
              (request_with code_form "r1")
              (code_grant toy row "app" (form_get "code" code_form))))
grant_code-granted_example =
    grant_code-granted toy demo (request_with code_form "r1") code_form "app" before after_code
      "fleet.read" "r1" "fleet.read" 600 first_grant

abbrev after_refresh : World
after_refresh =
    (grant_refresh toy demo (request_with refresh_form "r2") refresh_form "app" after_code).1

first_refresh :
    grant_refresh toy demo (request_with refresh_form "r2") refresh_form "app" after_code
    ≡ (granted "fleet.read" "r2" "fleet.read" 600, after_refresh)
unfolding grant_refresh letkite_lite.Auth.Store.Refresh.refresh_owner grant_code take_code form_get
    letkite_lite.Auth.OAuth.Token.pkce_verified letkite_lite.Prelude.Text.compare_digest
    letkite_lite.Settings.resource_ok letkite_lite.Settings.resource_url
    letkite_lite.Prelude.Text.rstrip_slash letkite_lite.Settings.resource_aliases
    letkite_lite.Auth.Store.Refresh.put_refresh letkite_lite.Auth.Store.Refresh.take_refresh
    access_scope letkite_lite.Auth.OAuth.Scopes.refresh_scope
first_refresh = refl

grant_refresh-Rotated_example :
    Rotated toy demo
      (request_with refresh_form "r2")
      refresh_form
      "app"
      after_code
      after_refresh
      "fleet.read"
grant_refresh-Rotated_example =
    grant_refresh-Rotated toy demo (request_with refresh_form "r2") refresh_form "app" after_code
      after_refresh "fleet.read" "r2" "fleet.read" 600 first_refresh

refresh_twice_example :
    ((grant_refresh toy demo (request_with refresh_form "r3") refresh_form "app" after_refresh).0
      ≡ refused invalid_grant 400)
    × FamilyIsRevoked
        (grant_refresh-Rotated toy demo
          (request_with refresh_form "r2")
          refresh_form
          "app"
          after_code
          after_refresh
          "fleet.read"
          "r2"
          "fleet.read"
          600
          first_refresh).row.family
        (grant_refresh toy demo
          (request_with refresh_form "r3")
          refresh_form
          "app"
          after_refresh).1.store
unfolding letkite_lite.Auth.OAuth.Token.owner_missing letkite_lite.Auth.Store.Refresh.refresh_owner
    grant_refresh grant_code take_code form_get letkite_lite.Auth.OAuth.Token.pkce_verified
    letkite_lite.Prelude.Text.compare_digest letkite_lite.Settings.resource_ok
    letkite_lite.Settings.resource_url letkite_lite.Prelude.Text.rstrip_slash
    letkite_lite.Settings.resource_aliases letkite_lite.Auth.Store.Refresh.put_refresh
    letkite_lite.Auth.Store.Refresh.take_refresh
refresh_twice_example =
    refresh_twice toy demo (request_with refresh_form "r2") (request_with refresh_form "r3")
      refresh_form refresh_form "app" "app" after_code after_refresh "fleet.read" "r2" "fleet.read"
      600 first_refresh refl refl

abbrev new_row : RefreshRow
new_row = record {
  token_hash = "r1";
  family = "code";
  client_id = "app";
  subject = "ops";
  scope = "fleet.read offline_access";
  resource = some "https://gw.test/mcp";
  expires_at = 86500;
  revoked = false;
  created_at = 100;
}

token-confidential_example :
    ("app" ≡ (client_credentials toy (request_with code_form "r1") code_form).0)
    × (toy.sha (client_credentials toy (request_with code_form "r1") code_form).1 ≡ "s3")
unfolding token letkite_lite.Auth.OAuth.Token.parse_body letkite_lite.Prelude.Text.has_infix
    letkite_lite.Auth.OAuth.Token.client_auth_ok client_credentials form_get
    letkite_lite.Auth.Store.Clients.get_client grant_code take_code
    letkite_lite.Auth.OAuth.Token.pkce_verified letkite_lite.Prelude.Text.compare_digest
    letkite_lite.Settings.resource_ok letkite_lite.Settings.resource_url
    letkite_lite.Prelude.Text.rstrip_slash letkite_lite.Settings.resource_aliases
    letkite_lite.Auth.Store.Refresh.put_refresh access_scope
token-confidential_example =
    token-confidential toy demo (request_with code_form "r1") code_form "s3" before
      (token toy demo (request_with code_form "r1") before).1 new_row app "fleet.read" "r1"
      "fleet.read" 600 refl refl refl refl refl cons≢nil cons≢nil
