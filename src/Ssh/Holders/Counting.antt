-- ===== src/Ssh/Holders/Counting.antt =====
-- How many items of a dictionary belong to a node: sessions, tunnels and log subscriptions of
-- src/vpsmcp/ssh, which all name the node they hold a connection to.
use letkite_lite.Prelude.{
  ℕ, suc, ◌+◌, not, String, ◌==◌, ◌≡◌, ◌≢◌, refl, none, some, List, [], ◌∷◌, keep, All, Bool-cases,
  inl, inr, arith, if◌then◌else◌, ==-false,
}
use letkite_lite.Dict.{lookup, put, remove, Distinct, ==→≡}

module _ {A : Type 0} (owner : A → String) where
  abbrev pub count : String → List (String × A) → ℕ
  count nid [] = 0
  count nid ((k, v) ∷ d) = let rest = count nid d in if owner v == nid then suc rest else rest

  -- What one item adds.
  abbrev pub adds : String → A → ℕ
  adds nid v = if owner v == nid then 1 else 0

  pub count-put :
      (nid k : String) (v : A) (d : List (String × A))
      → lookup k d ≡ none
      → count nid (put k v d) ≡ adds nid v + count nid d
  unfolding lookup put
  count-put nid k v [] h = ground arith
  count-put nid k v ((l, w) ∷ d) h = elim (Bool-cases (l == k)) [
    | inl same ↦ let taken : some w ≡ none = (rw same at h) in ground (arith, taken)
    | inr other ↦ rw other (ground (arith, count-put nid k v d (rw other at h)))
  ]

  count-keep_others :
      (nid k : String) (d : List (String × A))
      → All (λ e. e.0 ≢ k) d
      → count nid (keep (λ e. not (e.0 == k)) d) ≡ count nid d
  count-keep_others nid k [] h = refl
  count-keep_others nid k ((l, w) ∷ d) h =
      rw (==-false l k h.0) (ground (arith, count-keep_others nid k d h.1))

  pub count-remove :
      (nid k : String) (v : A) (d : List (String × A))
      → Distinct d
      → lookup k d ≡ some v
      → adds nid v + count nid (remove k d) ≡ count nid d
  unfolding lookup remove
  count-remove nid k v [] h found = ground arith
  count-remove nid k v ((l, w) ∷ d) h found = elim (Bool-cases (l == k)) [
    | inl same ↦
        let here : some w ≡ some v = (rw same at found) in
        let own : w ≡ v = cc in
        let others = count-keep_others nid k d (rw (==→≡ l k same) at h.0) in
        rw (same, own) (ground (arith, others))
    | inr other ↦ rw other (ground (arith, count-remove nid k v d h.1 (rw other at found)))
  ]
