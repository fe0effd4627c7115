-- ===== src/Auth/Store/Families.antt =====
-- Revocation of refresh tokens and of their families (src/vpsmcp/auth/store.py).
use letkite_lite.Prelude.{
  ℕ, Bool, true, false, String, ◌≡◌, ◌≢◌, refl, some, List, arith, All, find, Option-cases, inl,
  inr, any, ◌++◌, ◌∷◌, [], Bool-cases, eq_refl, ==-false,
}
use letkite_lite.Sql.{All-update, All-concat, All-find, update, any-find, find-update, find-concat}
use letkite_lite.Auth.Store.{Store, RefreshRow, CodeRow}
use letkite_lite.Auth.Store.Codes.{Taken, take_code, has_code_hash, has_family, revoke}
use letkite_lite.Auth.Store.Refresh.{
  Presented, RefreshFields, new_refresh, put_refresh, take_refresh, has_token_hash, present_row,
}

-- Every row that passes the test is revoked.
abbrev pub Revoked : (RefreshRow → Bool) → List RefreshRow → Type 0
Revoked q t = All (λ r. q r ≡ true → r.revoked ≡ true) t

-- No token of the family is good any more.
abbrev pub FamilyIsRevoked : String → Store → Type 0
FamilyIsRevoked f s = Revoked (has_family f) s.refresh_tokens

-- The token under this hash is not good any more.
abbrev pub TokenIsRevoked : String → Store → Type 0
TokenIsRevoked h s = Revoked (has_token_hash h) s.refresh_tokens

pub revoke-Revoked :
    (q : RefreshRow → Bool)
    → ((r : RefreshRow) → q (revoke r) ≡ q r)
    → (t : List RefreshRow) → Revoked q (update q revoke t)
revoke-Revoked q k [] = tt
revoke-Revoked q k (r ∷ t) = (ground (arith, k r), revoke-Revoked q k t)

-- A revocation never revives a row.
pub revoke-keeps-Revoked :
    (q p : RefreshRow → Bool) (t : List RefreshRow) → Revoked q t → Revoked q (update p revoke t)
revoke-keeps-Revoked q p t h = All-update _ p revoke (λ r k _ _. refl) t h

All-unit : (t : List RefreshRow) → All (λ _. Unit {0}) t
All-unit [] = tt
All-unit (r ∷ t) = (tt, All-unit t)

module _ (sha : String → String) where
  -- A replayed authorization code revokes every refresh token that came of it.
  pub take_code-replayed :
      (code : String) (s : Store) (r : CodeRow)
      → (take_code sha code s).0 ≡ Taken.replayed r
      → (r.used ≡ true) × FamilyIsRevoked (sha code) (take_code sha code s).1
  unfolding take_code
  take_code-replayed code s r e =
      elim (Option-cases (find (has_code_hash (sha code)) s.auth_codes)) [
        | inl f ↦ ground (arith, f)
        | inr (q, f) ↦
            ground (arith, f, revoke-Revoked (has_family (sha code)) (λ _. refl) s.refresh_tokens)
      ]

  -- What a successful rotation has found, and what it has changed.
  pub take_refresh-rotated :
      (token : String) (s : Store) (r : RefreshRow)
      → (take_refresh sha token s).0 ≡ Presented.rotated r
      → (find (has_token_hash (sha token)) s.refresh_tokens ≡ some r)
        × (r.revoked ≡ false)
        × ((take_refresh sha token s).1 ≡ record s {
          refresh_tokens = update (has_token_hash (sha token)) revoke s.refresh_tokens;
        })
  unfolding take_refresh
  take_refresh-rotated token s r e =
      elim (Option-cases (find (has_token_hash (sha token)) s.refresh_tokens)) [
        | inl f ↦ ground (arith, f)
        | inr (q, f) ↦ ground (arith, f)
      ]

  pub rotated-TokenIsRevoked :
      (token : String) (s : Store) (r : RefreshRow)
      → (take_refresh sha token s).0 ≡ Presented.rotated r
      → TokenIsRevoked (sha token) (take_refresh sha token s).1
  rotated-TokenIsRevoked token s r e =
      rw ((take_refresh-rotated token s r e).2)
        (revoke-Revoked (has_token_hash (sha token)) (λ _. refl) s.refresh_tokens)

  pub TokenIsRevoked-take_refresh :
      (token : String) (s : Store) (r : RefreshRow)
      → TokenIsRevoked (sha token) s
      → (take_refresh sha token s).0 ≢ Presented.rotated r
  TokenIsRevoked-take_refresh token s r gone e =
      let (found, live, _) = take_refresh-rotated token s r e in
      let (dead, hit) = All-find _ (has_token_hash (sha token)) s.refresh_tokens gone found in
      cc (dead hit)

  -- A token that is presented after its revocation takes its whole family with it.
  pub take_refresh-reused :
      (token : String) (s : Store) (r : RefreshRow)
      → (take_refresh sha token s).0 ≡ Presented.reused r
      → (find (has_token_hash (sha token)) s.refresh_tokens ≡ some r)
        × FamilyIsRevoked r.family (take_refresh sha token s).1
  unfolding take_refresh
  take_refresh-reused token s r e =
      elim (Option-cases (find (has_token_hash (sha token)) s.refresh_tokens)) [
        | inl f ↦ ground (arith, f)
        | inr (q, f) ↦
            ground (arith, f, revoke-Revoked (has_family q.family) (λ _. refl) s.refresh_tokens)
      ]

  pub take_refresh-keeps-Revoked :
      (q : RefreshRow → Bool) (token : String) (s : Store)
      → Revoked q s.refresh_tokens
      → Revoked q (take_refresh sha token s).1.refresh_tokens
  unfolding take_refresh
  take_refresh-keeps-Revoked q token s h =
      elim (Option-cases (find (has_token_hash (sha token)) s.refresh_tokens)) [
        | inl f ↦ rw f h
        | inr (r, f) ↦ rw f (kept r)
      ]
    where
      kept : (r : RefreshRow) → Revoked q (present_row sha (sha token) (some r) s).1.refresh_tokens
      kept r = elim (Bool-cases r.revoked) [
        | inl u ↦ rw u (revoke-keeps-Revoked q (has_family r.family) s.refresh_tokens h)
        | inr u ↦ rw u (revoke-keeps-Revoked q (has_token_hash (sha token)) s.refresh_tokens h)
      ]

  pub take_code-keeps-Revoked :
      (q : RefreshRow → Bool) (code : String) (s : Store)
      → Revoked q s.refresh_tokens
      → Revoked q (take_code sha code s).1.refresh_tokens
  unfolding take_code
  take_code-keeps-Revoked q code s h =
      elim (Option-cases (find (has_code_hash (sha code)) s.auth_codes)) [
        | inl f ↦ rw f h
        | inr (r, f) ↦
            ground (arith, f, revoke-keeps-Revoked q (has_family (sha code)) s.refresh_tokens h)
      ]

  -- `put_refresh` adds one live row, and raises if the hash is there.
  pub put_refresh_lem :
      (token : String) (f : RefreshFields) (now : ℕ) (s s' : Store)
      → put_refresh sha token f now s ≡ some s'
      → (any (has_token_hash (sha token)) s.refresh_tokens ≡ false)
        × (s'
            ≡ record s { refresh_tokens = s.refresh_tokens ++ new_refresh (sha token) f now ∷ [] })
  unfolding put_refresh
  put_refresh_lem token f now s s' e = ground arith

  pub put_refresh-keeps-Revoked :
      (q : RefreshRow → Bool) (token : String) (f : RefreshFields) (now : ℕ) (s s' : Store)
      → put_refresh sha token f now s ≡ some s'
      → q (new_refresh (sha token) f now) ≡ false
      → Revoked q s.refresh_tokens
      → Revoked q s'.refresh_tokens
  put_refresh-keeps-Revoked q token f now s s' e other h =
      rw ((put_refresh_lem token f now s s' e).1)
        (All-concat _ s.refresh_tokens (new_refresh (sha token) f now) h (λ hit. cc))

  -- The row of a token that was rotated stays in the table.
  pub any-rotated :
      (token : String) (s : Store) (r : RefreshRow)
      → (take_refresh sha token s).0 ≡ Presented.rotated r
      → any (has_token_hash (sha token)) (take_refresh sha token s).1.refresh_tokens ≡ true
  any-rotated token s r e =
      let h = has_token_hash (sha token) in
      let (found, _, changed) = take_refresh-rotated token s r e in
      rw
        (
          changed,
          any-find h (update h revoke s.refresh_tokens),
          find-update h h revoke (λ q. ground arith) s.refresh_tokens,
          found,
        )
        refl

  -- So the token that replaces it has another hash.
  pub put_refresh-after_rotation :
      (token fresh : String) (f : RefreshFields) (now : ℕ) (s s' : Store) (r : RefreshRow)
      → (take_refresh sha token s).0 ≡ Presented.rotated r
      → put_refresh sha fresh f now (take_refresh sha token s).1 ≡ some s'
      → TokenIsRevoked (sha token) s'
  put_refresh-after_rotation token fresh f now s s' r e stored =
      put_refresh-keeps-Revoked (has_token_hash (sha token)) fresh f now
        (take_refresh sha token s).1 s' stored differs (rotated-TokenIsRevoked token s r e)
    where
      clash : sha fresh ≡ sha token → ⊥
      clash same =
          let none_yet = (put_refresh_lem fresh f now (take_refresh sha token s).1 s' stored).0 in
          cc (any-rotated token s r e, rw same at none_yet)

      differs : has_token_hash (sha token) (new_refresh (sha fresh) f now) ≡ false
      differs = unfold new_refresh in ==-false (sha fresh) (sha token) clash

  -- Afterwards the table holds the old row, revoked, and the new one.
  pub find-after_rotation :
      (token fresh : String) (f : RefreshFields) (now : ℕ) (s s' : Store) (r : RefreshRow)
      → (take_refresh sha token s).0 ≡ Presented.rotated r
      → put_refresh sha fresh f now (take_refresh sha token s).1 ≡ some s'
      → find (has_token_hash (sha token)) s'.refresh_tokens ≡ some (revoke r)
  find-after_rotation token fresh f now s s' r e stored =
      let h = has_token_hash (sha token) in
      let (found, _, changed) = take_refresh-rotated token s r e in
      let hit = (All-find (λ _. Unit {0}) h s.refresh_tokens (All-unit s.refresh_tokens) found).1 in
      rw
        (
          (put_refresh_lem fresh f now (take_refresh sha token s).1 s' stored).1,
          changed,
          find-concat h (update h revoke s.refresh_tokens) (new_refresh (sha fresh) f now),
          find-update h h revoke (λ q. ground arith) s.refresh_tokens,
          found,
          hit,
        )
        refl

  pub find-put_refresh :
      (fresh : String) (f : RefreshFields) (now : ℕ) (s s' : Store)
      → put_refresh sha fresh f now s ≡ some s'
      → find (has_token_hash (sha fresh)) s'.refresh_tokens ≡ some (new_refresh (sha fresh) f now)
  find-put_refresh fresh f now s s' stored =
      let h = has_token_hash (sha fresh) in
      let (none_yet, changed) = put_refresh_lem fresh f now s s' stored in
      rw
        (
          changed,
          find-concat h s.refresh_tokens (new_refresh (sha fresh) f now),
          ← any-find h s.refresh_tokens,
          none_yet,
        )
        (unfold new_refresh in rw (eq_refl (sha fresh)) refl)
