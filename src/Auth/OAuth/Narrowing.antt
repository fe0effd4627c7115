-- ===== src/Auth/OAuth/Narrowing.antt =====
-- What the scopes of a token can be (src/vpsmcp/auth/oauth.py, `_norm_scopes`, `_grant_refresh`,
-- `_issue`).
use mathlib.Core.Path.{subst}
use letkite_lite.Prelude.{
  Bool, true, not, ◌||◌, String, ◌==◌, ◌≡◌, ◌≢◌, ◌⊎◌, inl, inr, refl, List, [], ◌∷◌, arith, eq_iff,
  keep, mem, All, All-keep, Bool-cases,
}
use letkite_lite.Prelude.Text.{words, unwords, IsWord, words-IsWord, words-unwords}
use letkite_lite.Auth.OAuth.Scopes.{
  from_keys, or_else, norm_words, norm_scopes, refresh_scope, access_scope,
}

pub mem-keep :
    (s : String) (p : String → Bool) (xs : List String)
    → mem s (keep p xs) ≡ true
    → (mem s xs ≡ true) × (p s ≡ true)
mem-keep s p [] h = cc
mem-keep s p (x ∷ xs) h = elim (Bool-cases (x == s)) [
  | inl same ↦ elim (Bool-cases (p x)) [
    | inl pass ↦ (rw same refl, subst (λ y. p y ≡ true) ((eq_iff x s).0 same) pass)
    | inr fail ↦ let rest = mem-keep s p xs (rw fail at h) in (rw same refl, rest.1)
  ]
  | inr other ↦
      let rest : mem s (keep p xs) ≡ true = ground (arith, other) in
      let (inside, pass) = mem-keep s p xs rest in (rw (other, inside) refl, pass)
]

mem-from_keys :
    (s : String) (seen xs : List String) → mem s (from_keys seen xs) ≡ true → mem s xs ≡ true
unfolding from_keys
mem-from_keys s seen [] h = h
mem-from_keys s seen (x ∷ xs) h = elim (Bool-cases (mem x seen)) [
  | inl old ↦ let inside = mem-from_keys s seen xs (rw old at h) in ground (arith, inside)
  | inr new ↦ elim (Bool-cases (x == s)) [
    | inl same ↦ rw same refl
    | inr other ↦
        let inside = mem-from_keys s (x ∷ seen) xs (rw (new, other) at h) in ground (arith, inside)
  ]
]

from_keys-IsWord : (seen xs : List String) → All IsWord xs → All IsWord (from_keys seen xs)
unfolding from_keys
from_keys-IsWord seen [] h = tt
from_keys-IsWord seen (x ∷ xs) h = elim (Bool-cases (mem x seen)) [
  | inl old ↦ rw old (from_keys-IsWord seen xs h.1)
  | inr new ↦ rw new (h.0, from_keys-IsWord (x ∷ seen) xs h.1)
]

pub words-unwords-keep :
    (p : String → Bool) (s : String) → words (unwords (keep p (words s))) ≡ keep p (words s)
words-unwords-keep p s =
    words-unwords (keep p (words s)) (All-keep IsWord p (words s) (words-IsWord s))

-- The scope of an access token is the grant's, without `offline_access`.
pub words-access_scope :
    (s : String) → words (access_scope s) ≡ keep (λ t. not (t == "offline_access")) (words s)
unfolding access_scope
words-access_scope s = words-unwords-keep (λ t. not (t == "offline_access")) s

-- The text that `unwords` falls back from is empty.
words-or_else :
    (s t d : String)
    → mem s (words (or_else t d)) ≡ true
    → (mem s (words t) ≡ true) ⊎ (mem s (words d) ≡ true)
words-or_else s t d h = elim (Bool-cases (t == "")) [
  | inl empty ↦ inr (rw empty at h)
  | inr full ↦ inl (rw full at h)
]

-- Whatever a refresh asks for, it gets scopes that the refresh token had.
pub refresh_scope-narrows :
    (requested held : String) (allowed : List String) (s : String)
    → mem s (words (refresh_scope requested held allowed)) ≡ true
    → mem s (words held) ≡ true
unfolding refresh_scope
refresh_scope-narrows requested held allowed s h =
    let asked = norm_scopes (or_else requested held) allowed in
    let kept : String → Bool = λ t. mem t (words held) in
    elim (words-or_else s (unwords (keep kept (words asked))) held h) [
      | inl narrow ↦
          (mem-keep s kept (words asked) (rw (words-unwords-keep kept asked) at narrow)).1
      | inr whole ↦ whole
    ]

-- So the access token of a refresh has no scope but the token's, and never `offline_access`.
pub access_scope-refresh_scope :
    (requested held : String) (allowed : List String) (s : String)
    → mem s (words (access_scope (refresh_scope requested held allowed))) ≡ true
    → (mem s (words held) ≡ true) × (s ≢ "offline_access")
access_scope-refresh_scope requested held allowed s h =
    let granted = refresh_scope requested held allowed in
    let (inside, pass) =
      mem-keep s (λ t. not (t == "offline_access")) (words granted)
        (rw (words-access_scope granted) at h) in
    (
      refresh_scope-narrows requested held allowed s inside,
      λ e. ground (arith, eq_iff s "offline_access"),
    )

-- A request is given only scopes that the server has, and `offline_access` if it asks.
pub norm_scopes-allowed :
    (requested s : String) (allowed : List String)
    → All IsWord allowed
    → mem s (words (norm_scopes requested allowed)) ≡ true
    → (mem s allowed ≡ true) ⊎ (s ≡ "offline_access")
unfolding norm_scopes
norm_scopes-allowed requested s allowed proper h =
    normalised (words requested) (words-IsWord requested) h
  where
    fits : String → Bool
    fits t = mem t allowed || t == "offline_access"

    known : mem s (words (unwords allowed)) ≡ true → (mem s allowed ≡ true) ⊎ (s ≡ "offline_access")
    known m = inl (rw (words-unwords allowed proper) at m)

    normalised :
        (ws : List String)
        → All IsWord ws
        → mem s (words (norm_words ws allowed)) ≡ true
        → (mem s allowed ≡ true) ⊎ (s ≡ "offline_access")
    normalised [] _ m = known m
    normalised (w ∷ ws) p m =
        let kept = keep fits (w ∷ ws) in
        elim (words-or_else s (unwords (from_keys [] kept)) (unwords allowed) m) [
          | inl chosen ↦
              let words_kept = All-keep IsWord fits (w ∷ ws) p in
              let inside : mem s (from_keys [] kept) ≡ true =
                rw (words-unwords (from_keys [] kept) (from_keys-IsWord [] kept words_kept)) at
                  chosen in
              let pass = (mem-keep s fits (w ∷ ws) (mem-from_keys s [] kept inside)).1 in
              ground (arith, eq_iff s "offline_access", pass)
          | inr whole ↦ known whole
        ]
