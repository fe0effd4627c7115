-- ===== src/Auth/OAuth/Token/Confidential.antt =====
-- A client that holds a secret gets no token without it.
use mathlib.Core.Path.{subst}
use letkite_lite.Prelude.{
  ℕ, true, false, String, ◌==◌, ◌≡◌, ◌≢◌, inl, inr, sym, ◌∙◌, some, arith, eq_iff, find, Bool-cases,
}
use letkite_lite.Settings.{Settings}
use letkite_lite.Auth.Store.{Store, RefreshRow, ClientRow}
use letkite_lite.Auth.Store.Clients.{get_client}
use letkite_lite.Auth.Store.Codes.{take_code}
use letkite_lite.Auth.Store.Refresh.{
  has_token_hash, refresh_owner, new_refresh, put_refresh, RefreshFields,
}
use letkite_lite.Auth.Store.Families.{find-put_refresh}
use letkite_lite.Auth.OAuth.{seconds, External, World, Form, form_get}
use letkite_lite.Auth.OAuth.Token.{
  TokenRequest, granted, grant_code, grant_refresh, token, parse_body, client_credentials,
  client_auth_ok, owner_missing, refresh_fields, code_grant, refresh_grant, by_grant_type,
  with_form,
}
use letkite_lite.Auth.OAuth.Token.CodeGrant.{issue-granted, after_code-granted}
use letkite_lite.Auth.OAuth.Token.RefreshGrant.{grant_refresh-Rotated}

owner_missing-named :
    (client_id owner h : String) (s : Store) (rec : ClientRow)
    → owner_missing client_id (some owner) s ≡ false
    → get_client owner s ≡ some rec
    → rec.secret_hash ≡ some h
    → h ≢ ""
    → owner ≢ ""
    → client_id ≡ owner
unfolding owner_missing
owner_missing-named client_id owner h s rec e known secret held named =
    ground (arith, eq_iff owner "", eq_iff client_id owner, eq_iff h "")

module _ (x : External) (c : Settings) where
  stored_owner :
      (f : RefreshFields) (fresh : String) (now : ℕ) (s s' : Store) (row : RefreshRow)
      → put_refresh x.sha fresh f now s ≡ some s'
      → find (has_token_hash (x.sha fresh)) s'.refresh_tokens ≡ some row
      → row.client_id ≡ f.client_id
  unfolding new_refresh
  stored_owner f fresh now s s' row stored found =
      ground (arith, find-put_refresh x.sha fresh f now s s' stored)

  refresh_owner_lem :
      (rt : String) (s : Store) (row : RefreshRow)
      → find (has_token_hash (x.sha rt)) s.refresh_tokens ≡ some row
      → refresh_owner x.sha rt s ≡ some row.client_id
  unfolding refresh_owner
  refresh_owner_lem rt s row found = rw found

  client_auth_ok-secret :
      (client_id secret h : String) (s : Store) (rec : ClientRow)
      → client_auth_ok x client_id secret s ≡ true
      → get_client client_id s ≡ some rec
      → rec.secret_hash ≡ some h
      → h ≢ ""
      → client_id ≢ ""
      → x.sha secret ≡ h
  unfolding client_auth_ok
  client_auth_ok-secret client_id secret h s rec e known held nonempty named =
      ground (arith, eq_iff client_id "", eq_iff h "", eq_iff secret "", eq_iff (x.sha secret) h)

  grant_code-owner :
      (req : TokenRequest) (form : Form) (client_id : String) (w w' : World) (row : RefreshRow)
      (access refresh scope : String) (ttl : ℕ)
      → grant_code x c req form client_id w ≡ (granted access refresh scope ttl, w')
      → find (has_token_hash (x.sha req.fresh.refresh_token)) w'.store.refresh_tokens ≡ some row
      → row.client_id ≡ client_id
  unfolding grant_code refresh_fields
  grant_code-owner req form client_id w w' row access refresh scope ttl e found =
      let code = form_get "code" form in
      let taken = take_code x.sha code w.store in
      let between : World = record w { store = taken.1 } in
      let (crow, _, _, done) =
        after_code-granted x c req form client_id taken.0 between w' access refresh scope ttl e in
      let g = code_grant x crow client_id code in
      let (_, _, _, _, stored) = issue-granted x c req g between w' access refresh scope ttl done in
      stored_owner (refresh_fields c req g) req.fresh.refresh_token (seconds req.clock)
        between.store w'.store row stored found

  -- The owner that the token names is the client that asked.
  grant_refresh-owner :
      (req : TokenRequest) (form : Form) (client_id h : String) (w w' : World) (row : RefreshRow)
      (rec : ClientRow) (access refresh scope : String) (ttl : ℕ)
      → grant_refresh x c req form client_id w ≡ (granted access refresh scope ttl, w')
      → find (has_token_hash (x.sha req.fresh.refresh_token)) w'.store.refresh_tokens ≡ some row
      → get_client row.client_id w.store ≡ some rec
      → rec.secret_hash ≡ some h
      → h ≢ ""
      → row.client_id ≢ ""
      → row.client_id ≡ client_id
  unfolding refresh_fields
  grant_refresh-owner req form client_id h w w' row rec access refresh scope ttl e found known held
        nonempty named =
      let r = grant_refresh-Rotated x c req form client_id w w' access refresh scope ttl e in
      let same : row.client_id ≡ r.row.client_id =
        stored_owner (refresh_fields c req (refresh_grant form r.row)) req.fresh.refresh_token
          (seconds req.clock) _ w'.store row r.stored found in
      let owner = refresh_owner_lem (form_get "refresh_token" form) w.store r.row r.found in
      same
      ∙ sym (
          owner_missing-named client_id r.row.client_id h w.store rec
            (subst (λ o. owner_missing client_id o w.store ≡ false) owner r.owner_named)
            (subst (λ i. get_client i w.store ≡ some rec) same known) held nonempty
            (λ empty. named (same ∙ empty)))

  by_grant_type-owner :
      (req : TokenRequest) (form : Form) (client_id h : String) (w w' : World) (row : RefreshRow)
      (rec : ClientRow) (access refresh scope : String) (ttl : ℕ)
      → by_grant_type x c req form client_id w ≡ (granted access refresh scope ttl, w')
      → find (has_token_hash (x.sha req.fresh.refresh_token)) w'.store.refresh_tokens ≡ some row
      → get_client row.client_id w.store ≡ some rec
      → rec.secret_hash ≡ some h
      → h ≢ ""
      → row.client_id ≢ ""
      → row.client_id ≡ client_id
  by_grant_type-owner req form client_id h w w' row rec access refresh scope ttl e found known held
        nonempty named =
      elim (Bool-cases (form_get "grant_type" form == "authorization_code")) [
        | inl code ↦
            grant_code-owner req form client_id w w' row access refresh scope ttl (rw code at e)
              found
        | inr other ↦ elim (Bool-cases (form_get "grant_type" form == "refresh_token")) [
          | inl renew ↦
              grant_refresh-owner req form client_id h w w' row rec access refresh scope ttl
                (rw (other, renew) at e) found known held nonempty named
          | inr none_such ↦ absurd (ground (arith, other, none_such))
        ]
      ]

  with_form-granted :
      (req : TokenRequest) (form : Form) (w w' : World) (access refresh scope : String) (ttl : ℕ)
      → with_form x c req (inl form) w ≡ (granted access refresh scope ttl, w')
      → (client_auth_ok x
            (client_credentials x req form).0
            (client_credentials x req form).1
            w.store
          ≡ true)
        × (by_grant_type x c req form (client_credentials x req form).0 w
            ≡ (granted access refresh scope ttl, w'))
  with_form-granted req form w w' access refresh scope ttl e = ground arith

  -- If tokens are issued to a client that registered a secret, the request named that client and
  -- presented a text whose hash is the one that was stored.
  pub token-confidential :
      (req : TokenRequest) (form : Form) (h : String) (w w' : World) (row : RefreshRow)
      (rec : ClientRow) (access refresh scope : String) (ttl : ℕ)
      → token x c req w ≡ (granted access refresh scope ttl, w')
      → parse_body c req ≡ inl form
      → find (has_token_hash (x.sha req.fresh.refresh_token)) w'.store.refresh_tokens ≡ some row
      → get_client row.client_id w.store ≡ some rec
      → rec.secret_hash ≡ some h
      → h ≢ ""
      → row.client_id ≢ ""
      → (row.client_id ≡ (client_credentials x req form).0)
        × (x.sha (client_credentials x req form).1 ≡ h)
  unfolding token
  token-confidential req form h w w' row rec access refresh scope ttl e parsed found known held
        nonempty named =
      let (accepted, done) =
        with_form-granted req form w w' access refresh scope ttl (rw parsed at e) in
      let same =
        by_grant_type-owner req form (client_credentials x req form).0 h w w' row rec access refresh
          scope ttl done found known held nonempty named in
      (
        same,
        client_auth_ok-secret (client_credentials x req form).0 (client_credentials x req form).1 h
            w.store rec accepted (subst (λ i. get_client i w.store ≡ some rec) same known) held
            nonempty (λ empty. named (same ∙ empty)),
      )
