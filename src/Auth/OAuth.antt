-- ===== src/Auth/OAuth.antt =====
-- src/vpsmcp/auth/oauth.py: what the endpoints share. Each endpoint is a module below.
pub mod Scopes
pub mod Callbacks
pub mod Token
pub mod Cookies
pub mod Authorize
pub mod Login
pub mod Register
pub mod Narrowing
use letkite_lite.Prelude.{
  ℕ, ◌/◌, ◌*◌, Bool, String, ◌==◌, Option, none, some, List, [], ◌∷◌, ◌++◌, ltb, if◌then◌else◌,
}
use letkite_lite.Auth.Store.{Store, Metadata}
use letkite_lite.Net.{Source}

-- What `urlparse` finds in a URL; a missing host name is "".
pub record Url : Type 0 where
  pub scheme : String
  pub hostname : String
  pub netloc : String
  pub path : String

-- The claims of an access token.
pub record Claims : Type 0 where
  pub iss : String
  pub sub : String
  pub aud : String
  pub client_id : String
  pub scope : String
  pub iat : ℕ
  pub exp : ℕ
  pub jti : String

-- The library functions that the server calls.
pub record External : Type 0 where
  -- hashlib.sha256(s.encode()).hexdigest()
  pub sha : String → String
  -- _b64u(hashlib.sha256(v.encode()).digest())
  pub challenge_of : String → String
  -- _b64u of the HMAC under the cookie key
  pub cookie_mac : String → String
  pub verify_password : String → String → Bool
  -- none is a ValueError
  pub urlparse : String → Option Url
  -- urlunparse(("http", hostname, path, "", "", ""))
  pub urlunparse : String → String → String
  pub b64decode : String → Option String
  pub unquote : String → String
  -- jwt.encode under the signing key
  pub sign : Claims → String
  -- the document at a client_id that is a URL, as `_fetch_cimd` accepts it
  pub fetch_cimd : String → Option Metadata

-- What the `secrets` module returns to one request.
pub record Fresh : Type 0 where
  pub jti : String
  pub refresh_token : String
  pub code : String
  pub sid : String
  pub client_id : String
  pub client_secret : String

-- An audit record, with the fields that tell records apart.
pub data Event : Type 0 where
  redirect_rejected : String → String → String → Event
  client_registered : String → String → Event
  authorized : String → String → String → String → Event
  login_failed : String → String → Event
  logged_in : String → String → Event
  client_auth_failed : String → Event
  code_replay : String → String → Event
  refresh_reuse : String → String → String → Event
  token_issued : String → String → String → String → Event
  revocation : String → Event

pub record World : Type 0 where
  pub store : Store
  pub audit : List Event

abbrev pub write : Event → World → World
write e w = record w { audit = w.audit ++ e ∷ [] }

-- `time.time()` in thousandths of a second; a request reads the clock once.
abbrev pub seconds : ℕ → ℕ
seconds clock = clock / 1000

-- expires_at < time.time()
abbrev pub has_expired : ℕ → ℕ → Bool
has_expired expires_at clock = ltb (expires_at * 1000) clock

abbrev pub Form : Type 0
Form = List (String × String)

abbrev pub or_first : Option String → Option String → Option String
or_first first none = first
or_first first (some v) = some v

abbrev pub text_or_empty : Option String → String
text_or_empty none = ""
text_or_empty (some v) = v

-- The last value of a key that comes more than once.
abbrev pub last_value : String → Form → Option String
last_value key [] = none
last_value key ((k, v) ∷ form) = or_first (if k == key then some v else none) (last_value key form)

-- str(form.get(key, ""))
unfoldable pub form_get : String → Form → String
form_get key form = text_or_empty (last_value key form)

pub data ErrorCode : Type 0 where
  invalid_request invalid_client invalid_grant invalid_target unsupported_grant_type : ErrorCode
  invalid_client_metadata invalid_redirect_uri unsupported_response_type access_denied : ErrorCode
