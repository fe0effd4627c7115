-- ===== src/Net/Spoofing.antt =====
-- Which part of `x-forwarded-for` counts in `client_ip` of src/vpsmcp/netutil.py.
use Prim.Native.String
use Prim.Native.Char.{Char, code}
use text.Mathlib.TextLemmas.{nil-append, cons-append}
use letkite_lite.Prelude.{
  ℕ, zero, suc, ◌+◌, ◌-◌, ◌≤◌, Bool, true, String, ◌≡◌, refl, ap, ◌∙◌, List, [], ◌∷◌, ◌++◌, map,
  keep, length, length-append, get_elem?, leb, eqb, non_empty, arith, Bool-cases, inl, inr,
}
use letkite_lite.Prelude.Text.{split_on, strip, step_field}
use letkite_lite.Net.{forwarded, client_ip, or_peer}

le→leb : (a b : ℕ) → a ≤ b → leb a b ≡ true
le→leb a b h = ground arith

eqb_refl : (n : ℕ) → eqb n n ≡ true
eqb_refl n = ground arith

step_field-append :
    (sep : ℕ) (c : Char) (w : String) (ws gs : List String)
    → step_field sep c ((w ∷ ws) ++ gs) ≡ step_field sep c (w ∷ ws) ++ gs
step_field-append sep c w ws gs = elim (Bool-cases (eqb (code c) sep)) [
  | inl ends ↦ rw ends refl
  | inr inside ↦ rw inside refl
]

split_on-cons :
    (sep : ℕ) (s : String) → (w : String) × (ws : List String) × (split_on sep s ≡ w ∷ ws)
unfolding split_on
split_on-cons sep String.[] = ("", [], refl)
split_on-cons sep (String.◌∷◌ c s) =
    let (w, ws, e) = split_on-cons sep s in
    elim (Bool-cases (eqb (code c) sep)) [
      | inl ends ↦ ("", w ∷ ws, rw (e, ends) refl)
      | inr inside ↦ (String.◌∷◌ c w, ws, rw (e, inside) refl)
    ]

split_on-append :
    (sep : Char) (a b : String)
    → split_on (code sep) (String.◌++◌ a (String.◌∷◌ sep b))
      ≡ split_on (code sep) a ++ split_on (code sep) b
unfolding split_on
split_on-append sep String.[] b =
    let (w, ws, e) = split_on-cons (code sep) b in
    rw (nil-append (String.◌∷◌ sep b), e, eqb_refl (code sep)) refl
split_on-append sep (String.◌∷◌ c a) b =
    let (w, ws, e) = split_on-cons (code sep) a in
    rw (cons-append c a (String.◌∷◌ sep b), split_on-append sep a b, e)
      (step_field-append (code sep) c w ws (split_on (code sep) b))

map-append : (f : String → String) (xs ys : List String) → map f (xs ++ ys) ≡ map f xs ++ map f ys
map-append f [] ys = refl
map-append f (x ∷ xs) ys = ap (λ r. f x ∷ r) (map-append f xs ys)

keep-append : (p : String → Bool) (xs ys : List String) → keep p (xs ++ ys) ≡ keep p xs ++ keep p ys
keep-append p [] ys = refl
keep-append p (x ∷ xs) ys = elim (Bool-cases (p x)) [
  | inl stays ↦ rw (stays, keep-append p xs ys) refl
  | inr goes ↦ rw goes (keep-append p xs ys)
]

forwarded-append :
    (a b : String) → forwarded (String.◌++◌ a (String.◌∷◌ "," b)) ≡ forwarded a ++ forwarded b
unfolding forwarded
forwarded-append a b =
    rw (split_on-append "," a b, map-append strip (split_on b',' a) (split_on b',' b))
      (keep-append non_empty (map strip (split_on b',' a)) (map strip (split_on b',' b)))

get_elem?-append :
    (xs ys : List String) (i : ℕ) → get_elem? (xs ++ ys) (length xs + i) ≡ get_elem? ys i
get_elem?-append [] ys i = ap (get_elem? ys) (omega arith)
get_elem?-append (x ∷ xs) ys i =
    ap (get_elem? (x ∷ (xs ++ ys))) (suc_add (length xs) i) ∙ get_elem?-append xs ys i
  where
    suc_add : (m n : ℕ) → suc m + n ≡ suc (m + n)
    suc_add m n = omega arith

-- Whatever a caller puts before the addresses that the trusted proxies append, `client_ip` answers the
-- same: with at least as many addresses after it as there are trusted hops, a prefix of the header is ignored.
pub client_ip-ignores_prefix :
    (peer a b : String) (hops : ℕ)
    → hops ≤ length (forwarded b)
    → client_ip (record { peer = peer; forwarded_for = String.◌++◌ a (String.◌∷◌ "," b) }) hops
      ≡ client_ip (record { peer = peer; forwarded_for = b }) hops
unfolding client_ip
client_ip-ignores_prefix peer a b zero le = refl
client_ip-ignores_prefix peer a b (suc hops) le =
    let fa = forwarded a in
    let fb = forwarded b in
    let sum = length-append fa fb in
    let index : length (fa ++ fb) - suc hops ≡ length fa + (length fb - suc hops) =
      omega (arith, sum, le) in
    rw
      (
        forwarded-append a b,
        le→leb (suc hops) (length (fa ++ fb)) (omega (arith, sum, le)),
        le→leb (suc hops) (length fb) le,
      )
      (ap (or_peer peer)
        (ap (get_elem? (fa ++ fb)) index ∙ get_elem?-append fa fb (length fb - suc hops)))
