-- ===== src/Auth/Store.antt =====
-- src/vpsmcp/auth/store.py: the tables of oauth.db, one list of rows each. The operations are in
-- the modules below. `now` is `int(time.time())`; a text that is hashed goes through the parameter
-- `sha`, the hex digest of SHA-256.
pub mod Clients
pub mod Codes
pub mod Refresh
pub mod Logins
pub mod Redirects
pub mod Gc
pub mod SingleUse
pub mod Families
pub mod Lockout
pub mod Rejects
use letkite_lite.Prelude.{ℕ, Bool, String, Option, List, []}

-- The metadata of a registered client, so far as the server reads it again; the other members of
-- the JSON document are carried along as `rest`.
pub record Metadata : Type 0 where
  pub client_name : String
  pub redirect_uris : List String
  pub auth_method : String
  pub scope : String
  pub cimd : Bool
  pub rest : String

pub record ClientRow : Type 0 where
  pub client_id : String
  pub secret_hash : Option String
  pub metadata : Metadata
  pub created_at : ℕ

pub record CodeRow : Type 0 where
  pub code_hash : String
  pub client_id : String
  pub redirect_uri : String
  pub scope : String
  pub challenge : String
  pub challenge_method : String
  pub resource : Option String
  pub subject : String
  pub expires_at : ℕ
  pub used : Bool

pub record RefreshRow : Type 0 where
  pub token_hash : String
  pub family : String
  pub client_id : String
  pub subject : String
  pub scope : String
  pub resource : Option String
  pub expires_at : ℕ
  pub revoked : Bool
  pub created_at : ℕ

pub record SessionRow : Type 0 where
  pub sid_hash : String
  pub subject : String
  pub expires_at : ℕ

pub record AttemptRow : Type 0 where
  pub ip : String
  pub fails : ℕ
  pub locked_until : ℕ

pub record AllowRow : Type 0 where
  pub prefix : String
  pub note : String
  pub created_at : ℕ

pub record RejectRow : Type 0 where
  pub uri : String
  pub client_name : String
  pub hits : ℕ
  pub first_seen : ℕ
  pub last_seen : ℕ

pub record Store : Type 0 where
  pub clients : List ClientRow
  pub auth_codes : List CodeRow
  pub refresh_tokens : List RefreshRow
  pub login_sessions : List SessionRow
  pub login_attempts : List AttemptRow
  pub redirect_allow : List AllowRow
  pub redirect_rejects : List RejectRow

-- The tables as SCHEMA creates them.
abbrev pub empty : Store
empty = record {
  clients = [];
  auth_codes = [];
  refresh_tokens = [];
  login_sessions = [];
  login_attempts = [];
  redirect_allow = [];
  redirect_rejects = [];
}
