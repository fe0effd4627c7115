-- ===== src/Auth/Store/Codes.antt =====
-- The authorization codes of src/vpsmcp/auth/store.py.
use letkite_lite.Prelude.{
  ℕ, Bool, true, false, String, ◌==◌, Option, none, some, find, if◌then◌else◌,
}
use letkite_lite.Sql.{update, insert}
use letkite_lite.Auth.Store.{Store, CodeRow, RefreshRow}

abbrev pub has_code_hash : String → CodeRow → Bool
has_code_hash h r = r.code_hash == h

abbrev pub has_family : String → RefreshRow → Bool
has_family f r = r.family == f

abbrev pub revoke : RefreshRow → RefreshRow
revoke r = record r { revoked = true }

abbrev pub use_up : CodeRow → CodeRow
use_up r = record r { used = true }

-- What the keyword arguments of `put_code` give. An empty or missing method is stored as "none".
pub record CodeFields : Type 0 where
  pub client_id : String
  pub redirect_uri : String
  pub scope : String
  pub challenge : String
  pub challenge_method : String
  pub resource : Option String
  pub subject : String
  pub expires_at : ℕ

unfoldable pub new_code : String → CodeFields → CodeRow
new_code h f = record {
  code_hash = h;
  client_id = f.client_id;
  redirect_uri = f.redirect_uri;
  scope = f.scope;
  challenge = f.challenge;
  challenge_method = if f.challenge_method == "" then "none" else f.challenge_method;
  resource = f.resource;
  subject = f.subject;
  expires_at = f.expires_at;
  used = false;
}

-- The answer of `take_code`: the row as it was read, marked as a replay or not.
pub data Taken : Type 0 where
  unknown : Taken
  replayed : CodeRow → Taken
  fresh : CodeRow → Taken

abbrev pub revoke_family_rows : String → Store → Store
revoke_family_rows f s = record s { refresh_tokens = update (has_family f) revoke s.refresh_tokens }

abbrev pub take_row : String → Option CodeRow → Store → Taken × Store
take_row h none s = (unknown, s)
take_row h (some r) s =
    if r.used
    then (replayed r, revoke_family_rows h s)
    else (fresh r, record s { auth_codes = update (has_code_hash h) use_up s.auth_codes })

module _ (sha : String → String) where
  -- `none` is the IntegrityError of a code that is in the table already.
  unfoldable pub put_code : String → CodeFields → Store → Option Store
  unfolding new_code
  put_code code f s =
      elim (insert (has_code_hash (sha code)) (new_code (sha code) f) s.auth_codes) [
        | none ↦ none
        | some t ↦ some (record s { auth_codes = t })
      ]

  unfoldable pub take_code : String → Store → Taken × Store
  take_code code s = take_row (sha code) (find (has_code_hash (sha code)) s.auth_codes) s
