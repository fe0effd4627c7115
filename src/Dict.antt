-- ===== src/Dict.antt =====
-- Python's dict with text keys, as the list of its items in their order.
use letkite_lite.Prelude.{
  Bool, true, false, not, String, ◌==◌, ◌≡◌, ◌≢◌, refl, sym, ◌∙◌, Option, none, some, List, [], ◌∷◌,
  keep, All, All-keep, if◌then◌else◌, arith, eq_iff, eq_refl, ==-false, Bool-cases, inl, inr,
}

-- Equal texts are one text.
pub ==→≡ : (s t : String) → (s == t) ≡ true → s ≡ t
==→≡ s t h = ground (arith, eq_iff s t)

≢-of : (s t : String) → (s == t) ≡ false → s ≢ t
≢-of s t h = ground (arith, eq_iff s t)

module _ {ℓ} {A : Type ℓ} where
  -- d.get(key)
  unfoldable pub lookup : String → List (String × A) → Option A
  lookup key [] = none
  lookup key ((k, v) ∷ d) = let rest = lookup key d in if k == key then some v else rest

  -- list(d)
  abbrev pub keys_of : List (String × A) → List String
  keys_of [] = []
  keys_of ((k, v) ∷ d) = k ∷ keys_of d

  -- d[key] = value: a key that is there keeps its place.
  unfoldable pub put : String → A → List (String × A) → List (String × A)
  put key value [] = (key, value) ∷ []
  put key value ((k, v) ∷ d) =
      let rest = put key value d in if k == key then (k, value) ∷ d else (k, v) ∷ rest

  -- d.pop(key, None)
  unfoldable pub remove : String → List (String × A) → List (String × A)
  remove key d = keep (λ e. not (e.0 == key)) d

  -- d.update(e)
  unfoldable pub put_all : List (String × A) → List (String × A) → List (String × A)
  unfolding put
  put_all [] d = d
  put_all ((k, v) ∷ e) d = put_all e (put k v d)

  -- No key stands twice.
  abbrev pub Distinct : List (String × A) → Type ℓ
  Distinct [] = Unit
  Distinct ((k, v) ∷ d) = All (λ e. e.0 ≢ k) d × Distinct d

  pub lookup-put_eq : (k : String) (v : A) (d : List (String × A)) → lookup k (put k v d) ≡ some v
  unfolding lookup put
  lookup-put_eq k v [] = rw (eq_refl k) refl
  lookup-put_eq k v ((l, w) ∷ d) = elim (Bool-cases (l == k)) [
    | inl same ↦ rw (same, same) refl
    | inr other ↦ rw (other, other) (lookup-put_eq k v d)
  ]

  pub lookup-put_ne :
      (j k : String) (v : A) (d : List (String × A)) → j ≢ k → lookup j (put k v d) ≡ lookup j d
  unfolding lookup put
  lookup-put_ne j k v [] ne = rw (==-false k j (λ e. ne (sym e))) refl
  lookup-put_ne j k v ((l, w) ∷ d) ne = elim (Bool-cases (l == k)) [
    | inl same ↦ rw (same, ==-false l j (λ e. ne (sym e ∙ ==→≡ l k same))) refl
    | inr other ↦ rw (other, lookup-put_ne j k v d ne) refl
  ]

  pub lookup-remove_eq : (k : String) (d : List (String × A)) → lookup k (remove k d) ≡ none
  unfolding lookup remove
  lookup-remove_eq k [] = refl
  lookup-remove_eq k ((l, w) ∷ d) = elim (Bool-cases (l == k)) [
    | inl same ↦ rw same (lookup-remove_eq k d)
    | inr other ↦ rw (other, other) (lookup-remove_eq k d)
  ]

  pub lookup-remove_ne :
      (j k : String) (d : List (String × A)) → j ≢ k → lookup j (remove k d) ≡ lookup j d
  unfolding lookup remove
  lookup-remove_ne j k [] ne = refl
  lookup-remove_ne j k ((l, w) ∷ d) ne = elim (Bool-cases (l == k)) [
    | inl same ↦
        rw (same, ==-false l j (λ e. ne (sym e ∙ ==→≡ l k same))) (lookup-remove_ne j k d ne)
    | inr other ↦ rw (other, lookup-remove_ne j k d ne) refl
  ]

  pub lookup-put :
      (j k : String) (v : A) (d : List (String × A))
      → lookup j (put k v d) ≡ (if k == j then some v else lookup j d)
  lookup-put j k v d = elim (Bool-cases (k == j)) [
    | inl same ↦ rw (same, ==→≡ k j same) (lookup-put_eq j v d)
    | inr other ↦ rw other (lookup-put_ne j k v d (λ e. ≢-of k j other (sym e)))
  ]

  pub lookup-remove :
      (j k : String) (d : List (String × A))
      → lookup j (remove k d) ≡ (if k == j then none else lookup j d)
  lookup-remove j k d = elim (Bool-cases (k == j)) [
    | inl same ↦ rw (same, ==→≡ k j same) (lookup-remove_eq j d)
    | inr other ↦ rw other (lookup-remove_ne j k d (λ e. ≢-of k j other (sym e)))
  ]

  pub keep-Distinct :
      (p : String × A → Bool) (d : List (String × A)) → Distinct d → Distinct (keep p d)
  keep-Distinct p [] h = tt
  keep-Distinct p ((k, v) ∷ d) h =
      ground (arith, All-keep (λ e. e.0 ≢ k) p d h.0, keep-Distinct p d h.1)

  -- A key that is not there.
  pub lookup-absent :
      (k : String) (d : List (String × A)) → All (λ e. e.0 ≢ k) d → lookup k d ≡ none
  unfolding lookup
  lookup-absent k [] h = refl
  lookup-absent k ((l, v) ∷ d) h = rw (==-false l k h.0) (lookup-absent k d h.1)

module _ {ℓ κ} {A : Type ℓ} (P : String × A → Type κ) where
  pub put-All :
      (k : String) (v : A) (d : List (String × A)) → All P d → P (k, v) → All P (put k v d)
  unfolding put
  put-All k v [] a p = (p, tt)
  put-All k v ((l, w) ∷ d) a p = elim (Bool-cases (l == k)) [
    | inl same ↦ rw (same, ==→≡ l k same) (p, a.1)
    | inr other ↦ rw other (a.0, put-All k v d a.1 p)
  ]

  pub lookup-All :
      (k : String) (v : A) (d : List (String × A)) → All P d → lookup k d ≡ some v → P (k, v)
  unfolding lookup
  lookup-All k v [] a found = ground arith
  lookup-All k v ((l, w) ∷ d) a found = elim (Bool-cases (l == k)) [
    | inl same ↦
        let here : some w ≡ some v = (rw same at found) in
        let own : w ≡ v = cc in rw (sym own, sym (==→≡ l k same)) a.0
    | inr other ↦ lookup-All k v d a.1 (rw other at found)
  ]

module _ {ℓ} {A : Type ℓ} where
  pub put-Distinct :
      (k : String) (v : A) (d : List (String × A)) → Distinct d → Distinct (put k v d)
  unfolding put
  put-Distinct k v [] h = (tt, tt)
  put-Distinct k v ((l, w) ∷ d) h = elim (Bool-cases (l == k)) [
    | inl same ↦ rw same h
    | inr other ↦
        rw other
          (put-All (λ e. e.0 ≢ l) k v d h.0 (λ e. ≢-of l k other (sym e)), put-Distinct k v d h.1)
  ]

  lookup-skips :
      (k : String) (v : A) (d e : List (String × A))
      → All (λ x. x.0 ≢ k) e
      → All (λ x. lookup x.0 d ≡ some x.1) e
      → All (λ x. lookup x.0 ((k, v) ∷ d) ≡ some x.1) e
  unfolding lookup
  lookup-skips k v d [] h a = tt
  lookup-skips k v d ((l, w) ∷ e) h a =
      (rw (==-false k l (λ p. h.0 (sym p))) a.0, lookup-skips k v d e h.1 a.1)

  -- Every item is what its key finds.
  pub lookup-own : (d : List (String × A)) → Distinct d → All (λ e. lookup e.0 d ≡ some e.1) d
  lookup-own [] h = tt
  lookup-own ((k, v) ∷ d) h =
      ((unfold lookup in rw (eq_refl k) refl), lookup-skips k v d d h.0 (lookup-own d h.1))
