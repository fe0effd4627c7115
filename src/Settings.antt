-- ===== src/Settings.antt =====
-- src/vpsmcp/settings.py: the settings that the modelled parts read, and the values derived from
-- them. Reading them from the environment is not modelled.
use Prim.Native.String
use letkite_lite.Prelude.{
  ℕ, Bool, true, not, String, ◌==◌, Option, none, some, List, [], ◌∷◌, ◌++◌, any, keep, mem,
  if◌then◌else◌,
}
use letkite_lite.Prelude.Text.{rstrip_slash}
use letkite_lite.Auth.Profiles.{redirects_for}

abbrev pub scopes : List String
scopes = "fleet.read" ∷ "fleet.exec" ∷ "fleet.write" ∷ "fleet.admin" ∷ []

pub record Settings : Type 0 where
  pub public_url : String
  pub mcp_path : String
  pub trusted_proxy_hops : ℕ
  pub proxy_user : String
  pub proxy_pass_hash : String
  pub strict_host_keys : Bool
  pub idle_conn_ttl : ℕ
  pub default_timeout : ℕ
  pub max_timeout : ℕ
  pub admin_user : String
  pub admin_password_hash : String
  pub access_ttl : ℕ
  pub refresh_ttl : ℕ
  pub code_ttl : ℕ
  pub login_session_ttl : ℕ
  pub clients : List String
  pub extra_redirect_prefixes : List String
  pub require_pkce : Bool
  pub lenient_token_body : Bool
  pub enable_dcr : Bool
  pub enable_cimd : Bool
  pub enroll_mode : String
  pub enroll_key : String
  pub enroll_allow_cidrs : List String
  pub enroll_user : String
  pub enroll_scopes : List String
  pub enable_guardrails : Bool
  pub read_only : Bool

unfoldable pub resource_url : Settings → String
resource_url c = String.◌++◌ (rstrip_slash c.public_url) c.mcp_path

unfoldable pub resource_aliases : Settings → List String
resource_aliases c =
    let base = rstrip_slash c.public_url in
    let res = resource_url c in res ∷ rstrip_slash res ∷ base ∷ String.◌++◌ base "/" ∷ []

-- `value` is none if the parameter is missing.
unfoldable pub resource_ok : Settings → Option String → Bool
resource_ok c none = true
resource_ok c (some value) =
    if value == ""
    then true
    else any (λ a. rstrip_slash value == rstrip_slash a) (resource_aliases c)

unfoldable pub allowed_redirect_prefixes : Settings → List String
allowed_redirect_prefixes c =
    let out = redirects_for c.clients in
    out ++ keep (λ p. not (mem p out)) c.extra_redirect_prefixes
