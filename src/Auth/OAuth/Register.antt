-- ===== src/Auth/OAuth/Register.antt =====
-- Dynamic client registration of src/vpsmcp/auth/oauth.py.
use letkite_lite.Prelude.{
  ℕ, Bool, true, false, not, ◌||◌, String, ◌==◌, Option, none, some, List, [], ◌∷◌, keep,
  if◌then◌else◌,
}
use letkite_lite.Prelude.Text.{slice_to, unwords}
use letkite_lite.Net.{Source}
use letkite_lite.Settings.{Settings, scopes}
use letkite_lite.Auth.Store.{Metadata}
use letkite_lite.Auth.Store.Clients.{put_client}
use letkite_lite.Auth.OAuth.{
  External, Fresh, World, ErrorCode, write, seconds, invalid_request, invalid_client_metadata,
  invalid_redirect_uri, client_registered,
}
use letkite_lite.Auth.OAuth.Scopes.{or_else}
use letkite_lite.Auth.OAuth.Authorize.{redirect_ok, reject_redirect}
use letkite_lite.Auth.OAuth.Token.{caller}

-- The members of the body that are read, as texts: a missing one is "", a `redirect_uris` that is
-- missing or no list is [].
pub record RegisterBody : Type 0 where
  pub client_name : String
  pub redirect_uris : List String
  pub auth_method : String
  pub scope : String
  pub rest : String

pub record RegisterRequest : Type 0 where
  -- none: the body is no JSON
  pub body : Option RegisterBody
  pub source : Source
  pub clock : ℕ
  pub fresh : Fresh

pub data RegisterReply : Type 0 where
  refused : ErrorCode → ℕ → RegisterReply
  -- client_id, and the secret of a confidential client
  registered : String → Option String → RegisterReply

module _ (x : External) (c : Settings) where
  abbrev pub reject_all : List String → String → RegisterRequest → World → World
  reject_all [] name req w = w
  reject_all (u ∷ us) name req w =
      reject_all us name req (reject_redirect x c u name req.source req.clock w)

  abbrev pub asks_for_secret : RegisterBody → Bool
  asks_for_secret b =
      b.auth_method == "client_secret_post" || b.auth_method == "client_secret_basic"

  abbrev pub name_of : RegisterBody → String
  name_of b = slice_to 120 (or_else b.client_name "unnamed")

  unfoldable pub metadata_of : RegisterBody → Metadata
  metadata_of b = record {
    client_name = name_of b;
    redirect_uris = b.redirect_uris;
    auth_method = if asks_for_secret b then b.auth_method else "none";
    scope = or_else b.scope (unwords scopes);
    cimd = false;
    rest = b.rest;
  }

  abbrev pub secret_of : Bool → String → Option String
  secret_of true secret = some secret
  secret_of false secret = none

  abbrev pub hash_of : Bool → String → Option String
  hash_of true secret = some (x.sha secret)
  hash_of false secret = none

  abbrev pub accept : RegisterRequest → RegisterBody → World → RegisterReply × World
  accept req b w =
      let secret = req.fresh.client_secret in
      (
        registered req.fresh.client_id (secret_of (asks_for_secret b) secret),
        write (client_registered req.fresh.client_id (caller c req.source)) (record w {
          store =
              put_client req.fresh.client_id (metadata_of b) (hash_of (asks_for_secret b) secret)
                (seconds req.clock) w.store;
        }),
      )

  abbrev pub vet : RegisterRequest → RegisterBody → List String → World → RegisterReply × World
  vet req b [] w = accept req b w
  vet req b (u ∷ us) w = (refused invalid_redirect_uri 400, reject_all (u ∷ us) (name_of b) req w)

  abbrev pub with_uris :
      RegisterRequest → RegisterBody → List String → World → RegisterReply × World
  with_uris req b [] w = (refused invalid_redirect_uri 400, w)
  with_uris req b (u ∷ us) w = vet req b (keep (λ v. not (redirect_ok x c v w.store)) (u ∷ us)) w

  abbrev pub with_body : RegisterRequest → Option RegisterBody → World → RegisterReply × World
  with_body req none w = (refused invalid_client_metadata 400, w)
  with_body req (some b) w = with_uris req b b.redirect_uris w

  unfoldable pub register : RegisterRequest → World → RegisterReply × World
  register req w =
      if c.enable_dcr then with_body req req.body w else (refused invalid_request 403, w)
