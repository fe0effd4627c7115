-- ===== src/Inventory/Found.antt =====
-- What `Inventory.get` of src/vpsmcp/inventory.py finds.
use letkite_lite.Prelude.{
  String, ◌≡◌, ap, ◌∙◌, none, some, List, [], ◌∷◌, ok, ok-injective, err≢ok, ◌⊎◌, inl, inr,
  Option-cases,
}
use letkite_lite.Dict.{lookup}
use letkite_lite.Inventory.Host.{Host}
use letkite_lite.Inventory.Lookup.{Hosts, matches, only, get}

only-single : (key : String) (hs : List Host) (h : Host) → only key hs ≡ ok h → hs ≡ h ∷ []
only-single key [] h e = err≢ok e
only-single key (g ∷ []) h e = ap (λ x. x ∷ []) (ok-injective g h e)
only-single key (g ∷ f ∷ hs) h e = err≢ok e

-- `get` returns a host only if its key is that node_id, or no node_id is the key and the host is the
-- only one with the key as its alias.
pub get-unambiguous :
    (key : String) (hosts : Hosts) (h : Host)
    → get key hosts ≡ ok h
    → (lookup key hosts ≡ some h) ⊎ ((lookup key hosts ≡ none) × (matches key hosts ≡ h ∷ []))
unfolding get
get-unambiguous key hosts h e = elim (Option-cases (lookup key hosts)) [
  | inl missing ↦ inr (missing, only-single key (matches key hosts) h (rw missing at e))
  | inr (g, found) ↦ inl (found ∙ ap some (ok-injective g h (rw found at e)))
]
