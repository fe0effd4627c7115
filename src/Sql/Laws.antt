-- ===== src/Sql/Laws.antt =====
-- The operations, and how they act on the first row that a test finds and on all rows.
use mathlib.Core.Option
use mathlib.Core.Path.{subst}
use letkite_lite.Prelude.{
  ◌≤◌, ◌≡◌, refl, Bool, true, false, Option, none, some, List, [], ◌∷◌, ◌++◌, arith, if◌then◌else◌,
  find, length, any, All, Bool-cases, inl, inr, is_some, suc, ap,
}

module _ {ℓ} {A : Type ℓ} where
  -- UPDATE t SET f WHERE p
  abbrev pub update : (A → Bool) → (A → A) → List A → List A
  update p f [] = []
  update p f (r ∷ t) = (if p r then f r else r) ∷ update p f t

  -- DELETE FROM t WHERE p
  abbrev pub delete : (A → Bool) → List A → List A
  delete p [] = []
  delete p (r ∷ t) = if p r then delete p t else r ∷ delete p t

  -- INSERT OR REPLACE INTO t, where `p` finds the rows with the new row's key.
  abbrev pub replace : (A → Bool) → A → List A → List A
  replace p r t = delete p t ++ r ∷ []

  -- INSERT INTO t: `none` is the IntegrityError of a key that is there already.
  abbrev pub insert : (A → Bool) → A → List A → Option (List A)
  insert p r t = if any p t then none else some (t ++ r ∷ [])

  -- ORDER BY: an insertion sort, stable as SQLite's sorter is.
  abbrev pub sorted_insert : (A → A → Bool) → A → List A → List A
  sorted_insert before r [] = r ∷ []
  sorted_insert before r (s ∷ t) = if before s r then s ∷ sorted_insert before r t else r ∷ s ∷ t

  abbrev pub order_by : (A → A → Bool) → List A → List A
  order_by before [] = []
  order_by before (r ∷ t) = sorted_insert before r (order_by before t)

module _ {ℓ κ} {A : Type ℓ} (P : A → Type κ) where
  pub All-delete : (p : A → Bool) (t : List A) → All P t → All P (delete p t)
  All-delete p [] h = tt
  All-delete p (r ∷ t) h = ground (arith, All-delete p t h.1)

  pub All-update :
      (p : A → Bool) (f : A → A)
      → ((r : A) → P r → p r ≡ true → P (f r))
      → (t : List A) → All P t
      → All P (update p f t)
  All-update p f k [] h = tt
  All-update p f k (r ∷ t) h = (step, All-update p f k t h.1)
    where
      pick : (b : Bool) → p r ≡ b → P (if b then f r else r)
      pick true e = k r h.0 e
      pick false e = h.0

      step : P (if p r then f r else r)
      step = pick (p r) refl

  pub All-concat : (t : List A) (r : A) → All P t → P r → All P (t ++ r ∷ [])
  All-concat [] r h k = (k, tt)
  All-concat (s ∷ t) r h k = (h.0, All-concat t r h.1 k)

  pub All-replace : (p : A → Bool) (r : A) (t : List A) → All P t → P r → All P (replace p r t)
  All-replace p r t h k = All-concat (delete p t) r (All-delete p t h) k

  pub All-find :
      (p : A → Bool) (t : List A) {r : A} → All P t → find p t ≡ some r → P r × (p r ≡ true)
  All-find p [] h e = cc
  All-find p (s ∷ t) {r} h e = elim (Bool-cases (p s)) [
    | inl hit ↦ let same : s ≡ r = ground arith in subst (λ x. P x × (p x ≡ true)) same (h.0, hit)
    | inr miss ↦ All-find p t h.1 (rw miss at e)
  ]

module _ {ℓ} {A : Type ℓ} where
  -- A query that an UPDATE does not disturb finds the same row, changed if the UPDATE meant it.
  pub find-update :
      (p q : A → Bool) (f : A → A)
      → ((r : A) → p (if q r then f r else r) ≡ p r)
      → (t : List A) → find p (update q f t) ≡ Option.map (λ r. if q r then f r else r) (find p t)
  find-update p q f k [] = refl
  find-update p q f k (r ∷ t) = elim (Bool-cases (p r)) [
    | inl hit ↦ rw (k r, hit)
    | inr miss ↦ rw (k r, miss) (find-update p q f k t)
  ]

  pub find-concat :
      (p : A → Bool) (t : List A) (r : A)
      → find p (t ++ r ∷ [])
        ≡ (if is_some (find p t) then find p t else if p r then some r else none)
  find-concat p [] r = refl
  find-concat p (s ∷ t) r = ground (arith, find-concat p t r)

  pub find-delete :
      (p q : A → Bool)
      → ((r : A) → p r ≡ true → q r ≡ false)
      → (t : List A) → find p (delete q t) ≡ find p t
  find-delete p q k [] = refl
  find-delete p q k (r ∷ t) = ground (arith, k r, find-delete p q k t)

  pub find-delete_self : (p : A → Bool) (t : List A) → find p (delete p t) ≡ none
  find-delete_self p [] = refl
  find-delete_self p (r ∷ t) = ground (arith, find-delete_self p t)

  pub find-replace :
      (p : A → Bool) (r : A) (t : List A) → p r ≡ true → find p (replace p r t) ≡ some r
  find-replace p r t h = rw (find-concat p (delete p t) r, find-delete_self p t, h)

  pub any-find : (p : A → Bool) (t : List A) → any p t ≡ is_some (find p t)
  any-find p [] = refl
  any-find p (r ∷ t) = ground (arith, any-find p t)

  pub length-update : (p : A → Bool) (f : A → A) (t : List A) → length (update p f t) ≡ length t
  length-update p f [] = refl
  length-update p f (r ∷ t) = ap suc (length-update p f t)

  pub length-delete : (p : A → Bool) (t : List A) → length (delete p t) ≤ length t
  length-delete p [] = omega arith
  length-delete p (r ∷ t) = ground (arith, length-delete p t)
