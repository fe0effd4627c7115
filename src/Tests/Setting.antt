-- ===== src/Tests/Setting.antt =====
-- A small server on which the theorems are tried: its settings, library functions and tables.
use letkite_lite.Prelude.{true, false, String, ◌==◌, none, some, List, [], ◌∷◌}
use letkite_lite.Net.{Source}
use letkite_lite.Settings.{Settings}
use letkite_lite.Auth.Store
use letkite_lite.Auth.Store.{Store, Metadata, ClientRow, CodeRow, RefreshRow, SessionRow}
use letkite_lite.Auth.OAuth.{External, Url, Fresh, World, Form}
use letkite_lite.Auth.OAuth.Token.{TokenRequest, malformed}
use letkite_lite.Auth.OAuth.Authorize.{AuthorizeRequest}

abbrev pub callback : Url
callback = record { scheme = "https"; hostname = "app.test"; netloc = "app.test"; path = "/cb" }

abbrev pub toy : External
toy = record {
  sha = λ s. s;
  challenge_of = λ s. s;
  cookie_mac = λ s. s;
  verify_password = λ p h. p == h;
  urlparse = λ u. some callback;
  urlunparse = λ h p. p;
  b64decode = λ s. none;
  unquote = λ s. s;
  sign = λ claims. claims.scope;
  fetch_cimd = λ u. none;
}

abbrev pub demo : Settings
demo = record {
  public_url = "https://gw.test";
  mcp_path = "/mcp";
  trusted_proxy_hops = 1;
  proxy_user = "";
  proxy_pass_hash = "";
  strict_host_keys = true;
  idle_conn_ttl = 300;
  default_timeout = 60;
  max_timeout = 600;
  admin_user = "ops";
  admin_password_hash = "pw";
  access_ttl = 600;
  refresh_ttl = 86400;
  code_ttl = 60;
  login_session_ttl = 3600;
  clients = [];
  extra_redirect_prefixes = "https://app.test/cb" ∷ [];
  require_pkce = true;
  lenient_token_body = true;
  enable_dcr = true;
  enable_cimd = false;
  enroll_mode = "off";
  enroll_key = "";
  enroll_allow_cidrs = [];
  enroll_user = "ops";
  enroll_scopes = [];
  enable_guardrails = true;
  read_only = true;
}

abbrev pub app_data : Metadata
app_data = record {
  client_name = "App";
  redirect_uris = "https://app.test/cb" ∷ [];
  auth_method = "client_secret_post";
  scope = "fleet.read";
  cimd = false;
  rest = "";
}

abbrev pub app : ClientRow
app = record { client_id = "app"; secret_hash = some "s3"; metadata = app_data; created_at = 1 }

abbrev pub signed_in : SessionRow
signed_in = record { sid_hash = "sid"; subject = "ops"; expires_at = 5000 }

abbrev pub code_row : CodeRow
code_row = record {
  code_hash = "code";
  client_id = "app";
  redirect_uri = "https://app.test/cb";
  scope = "fleet.read offline_access";
  challenge = "proof";
  challenge_method = "S256";
  resource = none;
  subject = "ops";
  expires_at = 160;
  used = false;
}

abbrev pub with_codes : List CodeRow → World
with_codes rows = record {
  store = record Store.empty {
    clients = app ∷ [];
    auth_codes = rows;
    login_sessions = signed_in ∷ [];
  };
  audit = [];
}

abbrev pub before : World
before = with_codes (code_row ∷ [])

abbrev pub used_up : World
used_up = with_codes ((record code_row { used = true }) ∷ [])

abbrev pub peer : Source
peer = record { peer = "10.0.0.1"; forwarded_for = "" }

abbrev pub fresh_with : String → Fresh
fresh_with refresh = record {
  jti = "j";
  refresh_token = refresh;
  code = "new-code";
  sid = "new-sid";
  client_id = "new-client";
  client_secret = "new-secret";
}

abbrev pub code_form : Form
code_form =
    ("grant_type", "authorization_code")
    ∷ ("code", "code")
    ∷ ("client_id", "app")
    ∷ ("client_secret", "s3")
    ∷ ("code_verifier", "proof")
    ∷ []

abbrev pub refresh_form : Form
refresh_form =
    ("grant_type", "refresh_token")
    ∷ ("refresh_token", "r1")
    ∷ ("client_id", "app")
    ∷ ("client_secret", "s3")
    ∷ []

abbrev pub request_with : Form → String → TokenRequest
request_with form refresh = record {
  content_type = "application/x-www-form-urlencoded";
  form = form;
  json = malformed;
  authorization = "";
  source = peer;
  clock = 100000;
  fresh = fresh_with refresh;
}

abbrev pub approval : AuthorizeRequest
approval = record {
  is_post = true;
  params =
      ("client_id", "app")
      ∷ ("redirect_uri", "https://app.test/cb")
      ∷ ("response_type", "code")
      ∷ ("code_challenge", "proof")
      ∷ ("code_challenge_method", "S256")
      ∷ ("scope", "fleet.read")
      ∷ ("_action", "approve")
      ∷ ("scope_fleet.read", "on")
      ∷ [];
  cookie = "sid.sid";
  source = peer;
  clock = 100000;
  fresh = fresh_with "r0";
}
