-- ===== src/Auth/Store/Refresh.antt =====
-- The refresh tokens of src/vpsmcp/auth/store.py.
use letkite_lite.Prelude.{
  ℕ, Bool, false, not, ◌&&◌, String, ◌==◌, Option, none, some, List, find, if◌then◌else◌, keep, ltb,
}
use letkite_lite.Sql.{update, insert, order_by}
use letkite_lite.Auth.Store.{Store, RefreshRow}
use letkite_lite.Auth.Store.Codes.{has_family, revoke}

abbrev pub has_token_hash : String → RefreshRow → Bool
has_token_hash h r = r.token_hash == h

pub record RefreshFields : Type 0 where
  pub family : String
  pub client_id : String
  pub subject : String
  pub scope : String
  pub resource : Option String
  pub expires_at : ℕ

unfoldable pub new_refresh : String → RefreshFields → ℕ → RefreshRow
new_refresh h f now = record {
  token_hash = h;
  family = f.family;
  client_id = f.client_id;
  subject = f.subject;
  scope = f.scope;
  resource = f.resource;
  expires_at = f.expires_at;
  revoked = false;
  created_at = now;
}

-- The answer of `take_refresh`: the row as it was read, marked as a reuse or not.
pub data Presented : Type 0 where
  unknown : Presented
  reused : RefreshRow → Presented
  rotated : RefreshRow → Presented

unfoldable pub revoke_family : String → Store → Store
revoke_family f s = record s { refresh_tokens = update (has_family f) revoke s.refresh_tokens }

-- ORDER BY created_at DESC
unfoldable pub active_grants : ℕ → Store → List RefreshRow
active_grants now s =
    order_by (λ a b. ltb b.created_at a.created_at)
      (keep (λ r. not r.revoked && ltb now r.expires_at) s.refresh_tokens)

module _ (sha : String → String) where
  unfoldable pub put_refresh : String → RefreshFields → ℕ → Store → Option Store
  unfolding new_refresh
  put_refresh token f now s =
      elim (insert (has_token_hash (sha token)) (new_refresh (sha token) f now) s.refresh_tokens) [
        | none ↦ none
        | some t ↦ some (record s { refresh_tokens = t })
      ]

  abbrev pub owner_of : Option RefreshRow → Option String
  owner_of none = none
  owner_of (some r) = some r.client_id

  unfoldable pub refresh_owner : String → Store → Option String
  refresh_owner token s = owner_of (find (has_token_hash (sha token)) s.refresh_tokens)

  abbrev pub present_row : String → Option RefreshRow → Store → Presented × Store
  present_row h none s = (unknown, s)
  present_row h (some r) s =
      if r.revoked
      then (
        reused r,
        record s { refresh_tokens = update (has_family r.family) revoke s.refresh_tokens },
      )
      else (
        rotated r,
        record s { refresh_tokens = update (has_token_hash h) revoke s.refresh_tokens },
      )

  unfoldable pub take_refresh : String → Store → Presented × Store
  take_refresh token s =
      present_row (sha token) (find (has_token_hash (sha token)) s.refresh_tokens) s

  unfoldable pub revoke_refresh : String → Store → Store
  revoke_refresh token s = record s {
    refresh_tokens = update (has_token_hash (sha token)) revoke s.refresh_tokens;
  }
