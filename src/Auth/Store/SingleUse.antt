-- ===== src/Auth/Store/SingleUse.antt =====
-- An authorization code is taken once (`take_code`, `put_code` of src/vpsmcp/auth/store.py).
use letkite_lite.Prelude.{
  ℕ, true, false, String, ◌==◌, ◌≡◌, ◌≢◌, refl, sym, ap, ◌∙◌, eq_refl, some, List, arith, eq_iff,
  All, find, Option-cases, inl, inr, any, ◌++◌, ◌∷◌, [], Bool-cases,
}
use letkite_lite.Sql.{All-delete, All-update, All-concat, All-find, update, any-find, find-concat}
use letkite_lite.Auth.Store.{Store, CodeRow}
use letkite_lite.Auth.Store.Codes.{
  Taken, CodeFields, new_code, put_code, take_code, has_code_hash, use_up, take_row,
}
use letkite_lite.Auth.Store.Gc.{gc}

-- Every row under this hash is used up.
abbrev pub IsSpent : String → Store → Type 0
IsSpent h s = All (λ r. (r.code_hash == h) ≡ true → r.used ≡ true) s.auth_codes

module _ (h : String) where
  use_up-All :
      (t : List CodeRow)
      → All (λ r. (r.code_hash == h) ≡ true → r.used ≡ true) (update (has_code_hash h) use_up t)
  use_up-All [] = tt
  use_up-All (r ∷ t) = (ground arith, use_up-All t)

module _ (sha : String → String) where
  -- What a successful `take_code` has found, and what it has changed.
  pub take_code-fresh :
      (code : String) (s : Store) (r : CodeRow)
      → (take_code sha code s).0 ≡ Taken.fresh r
      → (find (has_code_hash (sha code)) s.auth_codes ≡ some r)
        × (r.used ≡ false)
        × ((take_code sha code s).1
            ≡ record s { auth_codes = update (has_code_hash (sha code)) use_up s.auth_codes })
  unfolding take_code
  take_code-fresh code s r e = elim (Option-cases (find (has_code_hash (sha code)) s.auth_codes)) [
    | inl f ↦ ground (arith, f)
    | inr (q, f) ↦ ground (arith, f)
  ]

  pub take_code-IsSpent :
      (code : String) (s : Store) (r : CodeRow)
      → (take_code sha code s).0 ≡ Taken.fresh r
      → IsSpent (sha code) (take_code sha code s).1
  take_code-IsSpent code s r e =
      rw ((take_code-fresh code s r e).2) (use_up-All (sha code) s.auth_codes)

  -- A code whose rows are all used up is not taken again.
  pub IsSpent-take_code :
      (code : String) (s : Store) (r : CodeRow)
      → IsSpent (sha code) s
      → (take_code sha code s).0 ≢ Taken.fresh r
  IsSpent-take_code code s r spent e =
      let (found, unused, changed) = take_code-fresh code s r e in
      let (used, hit) = All-find _ (has_code_hash (sha code)) s.auth_codes spent found in
      cc (used hit)

  pub take_code-keeps-IsSpent :
      (h code : String) (s : Store) → IsSpent h s → IsSpent h (take_code sha code s).1
  unfolding take_code
  take_code-keeps-IsSpent h code s spent =
      elim (Option-cases (find (has_code_hash (sha code)) s.auth_codes)) [
        | inl f ↦ rw f spent
        | inr (q, f) ↦ rw f (kept q)
      ]
    where
      kept : (q : CodeRow) → IsSpent h (take_row (sha code) (some q) s).1
      kept q = elim (Bool-cases q.used) [
        | inl u ↦ rw u spent
        | inr u ↦
            rw u
              (All-update _ (has_code_hash (sha code)) use_up (λ r k _ _. refl) s.auth_codes spent)
      ]

  -- `put_code` adds one unused row, and raises if the hash is there.
  pub put_code_lem :
      (code : String) (f : CodeFields) (s s' : Store)
      → put_code sha code f s ≡ some s'
      → (any (has_code_hash (sha code)) s.auth_codes ≡ false)
        × (s' ≡ record s { auth_codes = s.auth_codes ++ new_code (sha code) f ∷ [] })
  unfolding put_code
  put_code_lem code f s s' e = ground arith

  -- The row of a code that was just put into the table is the new one.
  pub put_code-found :
      (code : String) (f : CodeFields) (s s' : Store)
      → put_code sha code f s ≡ some s'
      → find (has_code_hash (sha code)) s'.auth_codes ≡ some (new_code (sha code) f)
  put_code-found code f s s' e =
      let (fresh, changed) = put_code_lem code f s s' e in
      let own = has_code_hash (sha code) in
      ap (λ t. find own t.auth_codes) changed
      ∙ find-concat own s.auth_codes (new_code (sha code) f)
      ∙ rw (← any-find own s.auth_codes, fresh) (unfold new_code in rw (eq_refl (sha code)) refl)

  pub put_code-keeps-IsSpent :
      (h code : String) (f : CodeFields) (s s' : Store)
      → h ≢ sha code
      → put_code sha code f s ≡ some s'
      → IsSpent h s
      → IsSpent h s'
  put_code-keeps-IsSpent h code f s s' other e spent =
      rw ((put_code_lem code f s s' e).1)
        (All-concat _ s.auth_codes (new_code (sha code) f) spent differs)
    where
      differs :
          ((new_code (sha code) f).code_hash == h) ≡ true → (new_code (sha code) f).used ≡ true
      differs same = absurd (other (sym ((eq_iff (sha code) h).0 (unfold new_code in same))))

pub gc-keeps-IsSpent : (h : String) (now : ℕ) (s : Store) → IsSpent h s → IsSpent h (gc now s)
unfolding gc
gc-keeps-IsSpent h now s spent = All-delete _ _ s.auth_codes spent
