-- ===== src/Auth/OAuth/Token/RefreshGrant.antt =====
-- The refresh_token grant: rotation, and what a second use of a token costs.
use letkite_lite.Prelude.{
  ℕ, ◌*◌, ◌≤◌, true, false, String, ◌≡◌, ◌⊎◌, inl, inr, refl, some, arith, eq_iff, find, Bool-cases,
}
use letkite_lite.Settings.{Settings, scopes}
use letkite_lite.Auth.Store.{RefreshRow}
use letkite_lite.Auth.Store.Codes.{has_family, revoke}
use letkite_lite.Auth.Store.Refresh.{
  Presented, put_refresh, take_refresh, has_token_hash, refresh_owner,
}
use letkite_lite.Auth.Store.Families.{
  FamilyIsRevoked, TokenIsRevoked, take_refresh-rotated, put_refresh-after_rotation,
  find-after_rotation, revoke-Revoked,
}
use letkite_lite.Auth.OAuth.{seconds, External, World, Form, form_get, invalid_grant}
use letkite_lite.Auth.OAuth.Scopes.{access_scope, refresh_scope}
use letkite_lite.Auth.OAuth.Token.{
  TokenRequest, refused, granted, issue, refresh_grant, after_refresh, grant_refresh, owner_missing,
  refresh_fields,
}
use letkite_lite.Auth.OAuth.Token.CodeGrant.{issue-granted}

module _ (x : External) (c : Settings) where
  after_refresh-granted :
      (req : TokenRequest) (form : Form) (client_id : String) (presented : Presented) (w w' : World)
      (access refresh scope : String) (ttl : ℕ)
      → after_refresh x c req form client_id presented w ≡ (granted access refresh scope ttl, w')
      → (row : RefreshRow) × (presented ≡ Presented.rotated row)
        × (req.clock ≤ row.expires_at * 1000)
        × ((client_id ≡ "") ⊎ (row.client_id ≡ client_id))
        × (issue x c req (refresh_grant form row) w ≡ (granted access refresh scope ttl, w'))
  after_refresh-granted req form client_id Presented.unknown w w' access refresh scope ttl e = cc
  after_refresh-granted req form client_id (Presented.reused row) w w' access refresh scope ttl e =
      cc
  after_refresh-granted req form client_id (Presented.rotated row) w w' access refresh scope ttl e =
      (
        row,
        refl,
        ground (arith, eq_iff client_id "", eq_iff row.client_id client_id),
        ground (arith, eq_iff client_id "", eq_iff row.client_id client_id),
        ground (arith, eq_iff client_id "", eq_iff row.client_id client_id),
      )

  -- What a successful refresh has found and done, with the parts that later proofs build on.
  pub record Rotated (req : TokenRequest) (form : Form) (client_id : String) (w w' : World)
      (scope : String) : Type 0 where
    pub row : RefreshRow
    pub found :
        find (has_token_hash (x.sha (form_get "refresh_token" form))) w.store.refresh_tokens
        ≡ some row
    pub live : row.revoked ≡ false
    pub taken :
        (take_refresh x.sha (form_get "refresh_token" form) w.store).0 ≡ Presented.rotated row
    pub in_time : req.clock ≤ row.expires_at * 1000
    pub same_client : (client_id ≡ "") ⊎ (row.client_id ≡ client_id)
    pub owner_named :
        owner_missing client_id
          (refresh_owner x.sha (form_get "refresh_token" form) w.store)
          w.store
        ≡ false
    pub narrowed : scope ≡ access_scope (refresh_scope (form_get "scope" form) row.scope scopes)
    pub retired : TokenIsRevoked (x.sha (form_get "refresh_token" form)) w'.store
    pub stored :
        put_refresh x.sha req.fresh.refresh_token
          (refresh_fields c req (refresh_grant form row))
          (seconds req.clock)
          (take_refresh x.sha (form_get "refresh_token" form) w.store).1
        ≡ some w'.store

  pub grant_refresh-Rotated :
      (req : TokenRequest) (form : Form) (client_id : String) (w w' : World)
      (access refresh scope : String) (ttl : ℕ)
      → grant_refresh x c req form client_id w ≡ (granted access refresh scope ttl, w')
      → Rotated req form client_id w w' scope
  unfolding grant_refresh
  grant_refresh-Rotated req form client_id w w' access refresh scope ttl e =
      elim (Bool-cases (owner_missing client_id (refresh_owner x.sha token w.store) w.store)) [
        | inl bad ↦ absurd (ground (arith, bad))
        | inr good ↦ rotation good (rw good at e)
      ]
    where
      token : String
      token = form_get "refresh_token" form

      between : World
      between = record w { store = (take_refresh x.sha token w.store).1 }

      rotation :
          owner_missing client_id (refresh_owner x.sha token w.store) w.store ≡ false
          → after_refresh x c req form client_id (take_refresh x.sha token w.store).0 between
            ≡ (granted access refresh scope ttl, w')
          → Rotated req form client_id w w' scope
      rotation good done =
          let (row, taken, in_time, same_client, out) =
            after_refresh-granted req form client_id (take_refresh x.sha token w.store).0 between w'
              access refresh scope ttl done in
          let (found, live, _) = take_refresh-rotated x.sha token w.store row taken in
          let (_, _, narrowed, _, stored) =
            issue-granted x c req (refresh_grant form row) between w' access refresh scope ttl
              out in
          record {
            row = row;
            found = found;
            live = live;
            taken = taken;
            in_time = in_time;
            same_client = same_client;
            owner_named = good;
            narrowed = narrowed;
            retired =
                put_refresh-after_rotation x.sha token req.fresh.refresh_token
                  (refresh_fields c req (refresh_grant form row)) (seconds req.clock) w.store
                  w'.store row taken stored;
            stored = stored;
          }

  -- A token that was revoked, by its rotation or otherwise, is refused, and costs its family.
  pub grant_refresh-reused :
      (req : TokenRequest) (form : Form) (client_id : String) (w : World) (row : RefreshRow)
      → find (has_token_hash (x.sha (form_get "refresh_token" form))) w.store.refresh_tokens
        ≡ some row
      → row.revoked ≡ true
      → owner_missing client_id
          (refresh_owner x.sha (form_get "refresh_token" form) w.store)
          w.store
        ≡ false
      → ((grant_refresh x c req form client_id w).0 ≡ refused invalid_grant 400)
        × FamilyIsRevoked row.family (grant_refresh x c req form client_id w).1.store
  unfolding grant_refresh take_refresh
  grant_refresh-reused req form client_id w row found dead named =
      ground (arith, revoke-Revoked (has_family row.family) (λ _. refl) w.store.refresh_tokens)

  -- A token that was exchanged once is refused the second time, and then the token that replaced
  -- it is dead too: every token of the family is revoked.
  pub refresh_twice :
      (req again : TokenRequest) (form form' : Form) (client_id client_id' : String) (w w' : World)
      (access refresh scope : String) (ttl : ℕ)
      → (done : grant_refresh x c req form client_id w ≡ (granted access refresh scope ttl, w'))
      → form_get "refresh_token" form' ≡ form_get "refresh_token" form
      → owner_missing client_id'
          (refresh_owner x.sha (form_get "refresh_token" form') w'.store)
          w'.store
        ≡ false
      → ((grant_refresh x c again form' client_id' w').0 ≡ refused invalid_grant 400)
        × FamilyIsRevoked
            (grant_refresh-Rotated req form client_id w w' access refresh scope ttl done).row.family
            (grant_refresh x c again form' client_id' w').1.store
  refresh_twice req again form form' client_id client_id' w w' access refresh scope ttl done same
        named =
      let r = grant_refresh-Rotated req form client_id w w' access refresh scope ttl done in
      grant_refresh-reused again form' client_id' w' (revoke r.row)
        (rw same (
          find-after_rotation x.sha (form_get "refresh_token" form) req.fresh.refresh_token
            (refresh_fields c req (refresh_grant form r.row)) (seconds req.clock) w.store w'.store
            r.row r.taken r.stored))
        refl named
