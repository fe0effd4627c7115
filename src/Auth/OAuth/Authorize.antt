-- ===== src/Auth/OAuth/Authorize.antt =====
-- The authorization endpoint of src/vpsmcp/auth/oauth.py, with `_resolve_client`,
-- `_reject_redirect` and `redirect_ok`.
pub mod Consent
use Prim.Native.String
use letkite_lite.Prelude.{
  ℕ, ◌+◌, Bool, true, false, not, ◌&&◌, ◌||◌, String, ◌==◌, Option, none, some, List, [], ◌∷◌, any,
  keep, mem, if◌then◌else◌, non_empty,
}
use text.Mathlib.Text.{starts_with}
use letkite_lite.Prelude.Text.{words, unwords, slice_to}
use letkite_lite.Net.{Source}
use letkite_lite.Settings.{Settings, scopes, resource_url, resource_ok}
use letkite_lite.Auth.Store.{Store, Metadata, ClientRow}
use letkite_lite.Auth.Store.Clients.{get_client, put_client}
use letkite_lite.Auth.Store.Codes.{CodeFields, put_code}
use letkite_lite.Auth.Store.Redirects.{note_rejected_redirect, reject_cap}
use letkite_lite.Auth.OAuth.{
  External, Url, Fresh, Event, World, ErrorCode, Form, form_get, write, seconds, invalid_request,
  invalid_target, unsupported_response_type, access_denied, redirect_rejected, authorized,
}
use letkite_lite.Auth.OAuth.Scopes.{or_else, norm_scopes}
use letkite_lite.Auth.OAuth.Callbacks.{
  redirect_allowed, match_redirect, match_raises, server_prefixes,
}
use letkite_lite.Auth.OAuth.Cookies.{Checked, ok, raised, current_subject}
use letkite_lite.Auth.OAuth.Token.{caller}

pub record AuthorizeRequest : Type 0 where
  pub is_post : Bool
  pub params : Form
  pub cookie : String
  pub source : Source
  pub clock : ℕ
  pub fresh : Fresh

pub data AuthorizeReply : Type 0 where
  unknown_client redirect_mismatch callback_not_allowed : AuthorizeReply
  login_page server_error : AuthorizeReply
  -- the scope that the page offers, and its HTTP status
  consent_page : String → ℕ → AuthorizeReply
  -- back to the redirect_uri with an error or with a code
  bounce_error : String → ErrorCode → AuthorizeReply
  bounce_code : String → String → AuthorizeReply

module _ (x : External) (c : Settings) where
  -- redirect_ok
  unfoldable pub redirect_ok : String → Store → Bool
  redirect_ok uri s =
      non_empty uri && redirect_allowed x.urlparse x.urlunparse uri (server_prefixes c s)

  abbrev pub netloc_of : Option Url → String
  netloc_of none = "?"
  netloc_of (some u) = or_else u.netloc "?"

  -- `guess_client` of clients.py
  unfoldable pub guess_client : String → String
  guess_client uri = netloc_of (x.urlparse uri)

  unfoldable pub reject_redirect : String → String → Source → ℕ → World → World
  reject_redirect uri client_name source clock w =
      write (redirect_rejected (slice_to 400 uri) client_name (caller c source)) (record w {
        store = note_rejected_redirect uri client_name reject_cap (seconds clock) w.store;
      })

  abbrev pub put_fetched : String → ℕ → Option Metadata → Store → Option Metadata × Store
  put_fetched client_id clock none s = (none, s)
  put_fetched client_id clock (some meta) s =
      (some meta, put_client client_id meta none (seconds clock) s)

  abbrev pub resolve_row : String → ℕ → Option ClientRow → Store → Option Metadata × Store
  resolve_row client_id clock (some rec) s = (some rec.metadata, s)
  resolve_row client_id clock none s =
      if c.enable_cimd && starts_with client_id "https://"
      then put_fetched client_id clock (x.fetch_cimd client_id) s
      else (none, s)

  -- `_resolve_client`: the metadata, and the store with a document that was fetched
  unfoldable pub resolve_client : String → ℕ → Store → Option Metadata × Store
  resolve_client client_id clock s = resolve_row client_id clock (get_client client_id s) s

  -- The scopes of the consent form whose boxes are ticked.
  unfoldable pub picked : Form → String → List String
  picked params scope =
      keep (λ s. s == "offline_access" || non_empty (form_get (String.◌++◌ "scope_" s) params))
        (words scope)

  unfoldable pub code_fields : AuthorizeRequest → String → List String → CodeFields
  code_fields req subject granted =
      let p = req.params in
      record {
        client_id = form_get "client_id" p;
        redirect_uri = form_get "redirect_uri" p;
        scope = unwords granted;
        challenge = form_get "code_challenge" p;
        challenge_method =
            if form_get "code_challenge" p == ""
            then "none"
            else form_get "code_challenge_method" p;
        resource = some (resource_url c);
        subject = subject;
        expires_at = seconds req.clock + c.code_ttl;
      }

  abbrev pub with_code :
      AuthorizeRequest → String → List String → Option Store → World → AuthorizeReply × World
  with_code req subject granted none w = (server_error, w)
  with_code req subject granted (some s) w = (
    bounce_code (form_get "redirect_uri" req.params) req.fresh.code,
    write
        (authorized (form_get "client_id" req.params) subject (unwords granted)
          (caller c req.source))
        (record w { store = s }),
  )

  -- The approval of the consent page.
  unfoldable pub approve : AuthorizeRequest → String → String → World → AuthorizeReply × World
  unfolding picked
  approve req subject scope w =
      let granted = picked req.params scope in
      if any (λ s. not (s == "offline_access")) granted
      then with_code req subject granted
          (put_code x.sha req.fresh.code (code_fields req subject granted) w.store) w
      else (consent_page scope 400, w)

  abbrev pub signed_in : AuthorizeRequest → String → Option String → World → AuthorizeReply × World
  signed_in req scope none w = (login_page, w)
  signed_in req scope (some subject) w =
      if req.is_post && form_get "_action" req.params == "approve"
      then approve req subject scope w
      else if req.is_post && form_get "_action" req.params == "deny"
      then (bounce_error (form_get "redirect_uri" req.params) access_denied, w)
      else (consent_page scope 200, w)

  abbrev pub with_subject :
      AuthorizeRequest → Checked (Option String) → World → AuthorizeReply × World
  with_subject req raised w = (server_error, w)
  with_subject req (ok subject) w =
      signed_in req (norm_scopes (form_get "scope" req.params) scopes) subject w

  -- The checks whose failure goes back to the redirect_uri.
  unfoldable pub request_error : Form → Option ErrorCode
  request_error p =
      let challenge = form_get "code_challenge" p in
      let method = form_get "code_challenge_method" p in
      if not (form_get "response_type" p == "code")
      then some unsupported_response_type
      else if c.require_pkce && (not (method == "S256") || challenge == "")
      then some invalid_request
      else if not c.require_pkce
          && non_empty challenge
          && not (method == "S256" || method == "plain")
      then some invalid_request
      else if not (resource_ok c (some (form_get "resource" p)))
      then some invalid_target
      else none

  abbrev pub after_checks : AuthorizeRequest → Option ErrorCode → World → AuthorizeReply × World
  after_checks req (some e) w = (bounce_error (form_get "redirect_uri" req.params) e, w)
  after_checks req none w = with_subject req (current_subject x req.cookie req.clock w.store) w

  abbrev pub for_client : AuthorizeRequest → Option Metadata → World → AuthorizeReply × World
  for_client req none w =
      let uri = form_get "redirect_uri" req.params in
      (
        unknown_client,
        if non_empty uri && not (redirect_ok uri w.store)
            then reject_redirect uri (guess_client uri) req.source req.clock w
            else w,
      )
  for_client req (some meta) w =
      let uri = form_get "redirect_uri" req.params in
      if uri == ""
      then (redirect_mismatch, w)
      else if match_raises x.urlparse x.urlunparse uri meta.redirect_uris
      then (server_error, w)
      else if not (match_redirect x.urlparse x.urlunparse uri meta.redirect_uris)
      then (redirect_mismatch, w)
      else if not (redirect_ok uri w.store)
      then (
        callback_not_allowed,
        reject_redirect uri (or_else meta.client_name (guess_client uri)) req.source req.clock w,
      )
      else after_checks req (request_error req.params) w

  unfoldable pub authorize : AuthorizeRequest → World → AuthorizeReply × World
  unfolding approve
  authorize req w =
      let (meta, s) = resolve_client (form_get "client_id" req.params) req.clock w.store in
      for_client req meta (record w { store = s })
