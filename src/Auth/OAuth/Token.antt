-- ===== src/Auth/OAuth/Token.antt =====
-- The token and revocation endpoints of src/vpsmcp/auth/oauth.py. An error carries its code and
-- HTTP status; the description is left out. Proofs are in the modules below.
pub mod CodeGrant
pub mod RefreshGrant
pub mod Confidential
use letkite_lite.Prelude.{
  ℕ, ◌+◌, Bool, true, false, not, ◌&&◌, ◌||◌, String, ◌==◌, Option, none, some, List, [], ◌∷◌,
  if◌then◌else◌, non_empty, ◌⊎◌, inl, inr,
}
use text.Mathlib.Text.{starts_with}
use letkite_lite.Prelude.Text.{has_infix, lower_eq, partition, slice_to, slice_from, compare_digest}
use letkite_lite.Net.{Source, client_ip}
use letkite_lite.Settings.{Settings, scopes, resource_url, resource_ok}
use letkite_lite.Auth.Store.{Store, ClientRow, CodeRow, RefreshRow}
use letkite_lite.Auth.Store.Clients.{get_client}
use letkite_lite.Auth.Store.Codes.{Taken, take_code}
use letkite_lite.Auth.Store.Codes
use letkite_lite.Auth.Store.Refresh.{
  Presented, RefreshFields, put_refresh, refresh_owner, take_refresh, revoke_refresh,
}
use letkite_lite.Auth.Store.Refresh
use letkite_lite.Auth.OAuth.{
  External, Claims, Fresh, Event, World, ErrorCode, Form, form_get, write, seconds, has_expired,
  invalid_request, invalid_client, invalid_grant, invalid_target, unsupported_grant_type,
  client_auth_failed, code_replay, refresh_reuse, token_issued, revocation,
}
use letkite_lite.Auth.OAuth.Scopes.{or_else, refresh_scope, access_scope}

-- What `await request.json()` gives: a failure, no object, or an object with its values as text.
pub data JsonBody : Type 0 where
  malformed not_object : JsonBody
  object : Form → JsonBody

pub record TokenRequest : Type 0 where
  pub content_type : String
  pub form : Form
  pub json : JsonBody
  pub authorization : String
  pub source : Source
  pub clock : ℕ
  pub fresh : Fresh

pub data TokenReply : Type 0 where
  refused : ErrorCode → ℕ → TokenReply
  -- access token, refresh token, scope and lifetime
  granted : String → String → String → ℕ → TokenReply
  -- an exception that nothing catches
  server_error : TokenReply

-- What the checks on a code come to: all pass, one denies, or one raises an exception.
pub data Verdict : Type 0 where
  pass raises : Verdict
  deny : ErrorCode → Verdict

-- self._client_ip(request)
abbrev pub caller : Settings → Source → String
caller c source = or_else (client_ip source c.trusted_proxy_hops) "?"

abbrev pub Parsed : Type 0
Parsed = Form ⊎ ErrorCode

abbrev pub json_form : JsonBody → Parsed
json_form malformed = inr invalid_request
json_form not_object = inr invalid_request
json_form (object form) = inl form

unfoldable pub parse_body : Settings → TokenRequest → Parsed
parse_body c req =
    if has_infix "application/x-www-form-urlencoded" req.content_type
    then inl req.form
    else if c.lenient_token_body && has_infix "application/json" req.content_type
    then json_form req.json
    else inr invalid_request

-- rec.get("challenge_method") or ("S256" if rec["challenge"] else "none")
abbrev pub method_of : CodeRow → String
method_of row = or_else row.challenge_method (if row.challenge == "" then "none" else "S256")

-- bool(verifier) and hmac.compare_digest(text, challenge)
abbrev pub digest_matches : String → String → String → Option Bool
digest_matches verifier text challenge =
    if verifier == "" then some false else compare_digest text challenge

abbrev pub or_text : Option String → String
or_text none = ""
or_text (some r) = r

-- The resource that the request, the code or the server's own URL names.
abbrev pub resource_of : Settings → Form → CodeRow → String
resource_of c form row =
    or_else (form_get "resource" form) (or_else (or_text row.resource) (resource_url c))

abbrev pub after_pkce : Settings → Form → CodeRow → Option Bool → Verdict
after_pkce c form row none = raises
after_pkce c form row (some false) = deny invalid_grant
after_pkce c form row (some true) =
    if resource_ok c (some (resource_of c form row)) then pass else deny invalid_target

-- The arguments of `_issue`.
pub record Grant : Type 0 where
  pub client_id : String
  pub subject : String
  pub scope : String
  pub family : String

unfoldable pub claims_of : Settings → TokenRequest → Grant → Claims
claims_of c req g = record {
  iss = c.public_url;
  sub = g.subject;
  aud = resource_url c;
  client_id = g.client_id;
  scope = access_scope g.scope;
  iat = seconds req.clock;
  exp = seconds req.clock + c.access_ttl;
  jti = req.fresh.jti;
}

unfoldable pub refresh_fields : Settings → TokenRequest → Grant → RefreshFields
refresh_fields c req g = record {
  family = g.family;
  client_id = g.client_id;
  subject = g.subject;
  scope = g.scope;
  resource = some (resource_url c);
  expires_at = seconds req.clock + c.refresh_ttl;
}

-- Does the owner of the token hold a secret, and does the request not name it?
abbrev pub holds_secret : Option ClientRow → Bool
holds_secret none = false
holds_secret (some rec) = non_empty (or_text rec.secret_hash)

unfoldable pub owner_missing : String → Option String → Store → Bool
owner_missing client_id none s = false
owner_missing client_id (some owner) s =
    non_empty owner && not (client_id == owner) && holds_secret (get_client owner s)

abbrev pub refresh_grant : Form → RefreshRow → Grant
refresh_grant form row = record {
  client_id = row.client_id;
  subject = row.subject;
  scope = refresh_scope (form_get "scope" form) row.scope scopes;
  family = row.family;
}

module _ (x : External) where
  open x use {sha}

  abbrev pub decoded_pair : Option String → String × String
  decoded_pair none = ("", "")
  decoded_pair (some raw) = (x.unquote (partition b':' raw).0, x.unquote (partition b':' raw).1)

  -- `_basic_auth`: both halves, empty if there is no usable header
  unfoldable pub basic_auth : String → String × String
  basic_auth header =
      if lower_eq (slice_to 6 header) "basic "
      then decoded_pair (x.b64decode (slice_from 6 header))
      else ("", "")

  -- `_client_credentials`: from the form, or what is missing there from the header
  unfoldable pub client_credentials : TokenRequest → Form → String × String
  client_credentials req form =
      let cid = form_get "client_id" form in
      let sec = form_get "client_secret" form in
      let basic = basic_auth req.authorization in
      if non_empty cid && non_empty sec
      then (cid, sec)
      else (or_else cid basic.0, or_else sec basic.1)

  abbrev pub secret_matches : String → Option String → Bool
  secret_matches secret none = true
  secret_matches secret (some stored) = stored == "" || (non_empty secret && sha secret == stored)

  abbrev pub row_accepts : String → Option ClientRow → Bool
  row_accepts secret none = true
  row_accepts secret (some rec) = secret_matches secret rec.secret_hash

  -- `_check_client_auth`: true if the request may go on
  unfoldable pub client_auth_ok : String → String → Store → Bool
  client_auth_ok client_id secret s = client_id == "" || row_accepts secret (get_client client_id s)

  unfoldable pub pkce_verified : Settings → CodeRow → String → Option Bool
  pkce_verified c row verifier =
      if method_of row == "S256"
      then digest_matches verifier (x.challenge_of verifier) row.challenge
      else if method_of row == "plain"
      then digest_matches verifier verifier row.challenge
      else some (not c.require_pkce)

  -- The checks of `_grant_code` on a code that was not used, in their order.
  unfoldable pub code_verdict : Settings → Form → String → ℕ → CodeRow → Verdict
  code_verdict c form client_id clock row =
      let redirect_uri = form_get "redirect_uri" form in
      if has_expired row.expires_at clock
      then deny invalid_grant
      else if not (row.client_id == client_id)
      then deny invalid_grant
      else if non_empty redirect_uri && not (redirect_uri == row.redirect_uri)
      then deny invalid_grant
      else after_pkce c form row (pkce_verified c row (form_get "code_verifier" form))

  abbrev pub issued : Settings → TokenRequest → Grant → World → Option Store → TokenReply × World
  issued c req g w none = (server_error, w)
  issued c req g w (some s) = (
    granted (x.sign (claims_of c req g)) req.fresh.refresh_token (access_scope g.scope)
        c.access_ttl,
    write (token_issued g.client_id g.subject (access_scope g.scope) (caller c req.source))
        (record w { store = s }),
  )

  unfoldable pub issue : Settings → TokenRequest → Grant → World → TokenReply × World
  unfolding claims_of refresh_fields
  issue c req g w =
      issued c req g w (
        put_refresh sha req.fresh.refresh_token (refresh_fields c req g) (seconds req.clock)
          w.store)

  abbrev pub code_grant : CodeRow → String → String → Grant
  code_grant row client_id code = record {
    client_id = client_id;
    subject = row.subject;
    scope = row.scope;
    family = sha code;
  }

  -- How `_grant_code` goes on with what `take_code` has returned.
  abbrev pub after_code :
      Settings → TokenRequest → Form → String → Taken → World → TokenReply × World
  after_code c req form client_id Taken.unknown w = (refused invalid_grant 400, w)
  after_code c req form client_id (Taken.replayed row) w =
      (refused invalid_grant 400, write (code_replay client_id (caller c req.source)) w)
  after_code c req form client_id (Taken.fresh row) w =
      elim (code_verdict c form client_id req.clock row) [
        | deny e ↦ (refused e 400, w)
        | raises ↦ (server_error, w)
        | pass ↦ issue c req (code_grant row client_id (form_get "code" form)) w
      ]

  unfoldable pub grant_code : Settings → TokenRequest → Form → String → World → TokenReply × World
  unfolding code_verdict issue
  grant_code c req form client_id w =
      let (taken, s) = take_code sha (form_get "code" form) w.store in
      after_code c req form client_id taken (record w { store = s })

  abbrev pub after_refresh :
      Settings → TokenRequest → Form → String → Presented → World → TokenReply × World
  after_refresh c req form client_id Presented.unknown w = (refused invalid_grant 400, w)
  after_refresh c req form client_id (Presented.reused row) w = (
    refused invalid_grant 400,
    write (refresh_reuse client_id row.family (caller c req.source)) w,
  )
  after_refresh c req form client_id (Presented.rotated row) w =
      if has_expired row.expires_at req.clock
      then (refused invalid_grant 400, w)
      else if non_empty client_id && not (row.client_id == client_id)
      then (refused invalid_grant 400, w)
      else issue c req (refresh_grant form row) w

  unfoldable pub grant_refresh :
      Settings → TokenRequest → Form → String → World → TokenReply × World
  unfolding issue owner_missing
  grant_refresh c req form client_id w =
      let rt = form_get "refresh_token" form in
      if owner_missing client_id (refresh_owner sha rt w.store) w.store
      then (refused invalid_client 401, w)
      else let (presented, s) = take_refresh sha rt w.store in
        after_refresh c req form client_id presented (record w { store = s })

  abbrev pub by_grant_type : Settings → TokenRequest → Form → String → World → TokenReply × World
  by_grant_type c req form client_id w =
      if form_get "grant_type" form == "authorization_code"
      then grant_code c req form client_id w
      else if form_get "grant_type" form == "refresh_token"
      then grant_refresh c req form client_id w
      else (refused unsupported_grant_type 400, w)

  abbrev pub with_form : Settings → TokenRequest → Parsed → World → TokenReply × World
  with_form c req (inr e) w = (refused e 400, w)
  with_form c req (inl form) w =
      let (client_id, secret) = client_credentials req form in
      if client_auth_ok client_id secret w.store
      then by_grant_type c req form client_id w
      else (refused invalid_client 401, write (client_auth_failed client_id) w)

  unfoldable pub token : Settings → TokenRequest → World → TokenReply × World
  token c req w = with_form c req (parse_body c req) w

  -- POST /oauth/revoke
  unfoldable pub revoke : Settings → TokenRequest → World → World
  revoke c req w =
      let tok = form_get "token" req.form in
      write (revocation (caller c req.source))
        (record w { store = if tok == "" then w.store else revoke_refresh sha tok w.store })
