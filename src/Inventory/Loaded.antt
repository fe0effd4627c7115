-- ===== src/Inventory/Loaded.antt =====
-- What a loaded inventory is, after `load_inventory` of src/vpsmcp/inventory.py.
use letkite_lite.Prelude.{
  true, false, String, ◌==◌, ◌≡◌, refl, sym, Option, some, List, [], ◌∷◌, All, Result, ok, ◌>>=◌,
  bind-ok, ok-injective, err≢ok, Bool-cases, inl, inr,
}
use letkite_lite.Dict.{lookup, put, Distinct, put-All, put-Distinct, lookup-own}
use letkite_lite.Inventory.Host.{Host, node_id, valid_alias}
use letkite_lite.Inventory.Lookup.{InventoryError, Hosts, values, get}
use letkite_lite.Inventory.Load.{
  Item, build, add_host, add_items, jump_ok, check_jumps, load_inventory, conflict, explicit_id,
  checked, host_of, merge,
}

-- A host that an item was built into.
pub record IsBuilt (h : Host) : Type 0 where
  pub alias_ok : valid_alias h.alias ≡ true
  pub has_address : (h.address == "") ≡ false

checked-IsBuilt :
    (merged : Item) (alias address : String) (fixed : Result InventoryError (Option String))
    (h : Host)
    → checked merged alias address fixed ≡ ok h
    → IsBuilt h
checked-IsBuilt merged alias address fixed h e = elim (Bool-cases (valid_alias alias)) [
  | inl good ↦ elim (Bool-cases (address == "")) [
    | inl blank ↦ err≢ok (rw (good, blank) at e)
    | inr there ↦
        let (id, found, e1) =
          bind-ok fixed (λ id. ok (host_of merged alias address id)) h (rw (good, there) at e) in
        rw (sym (ok-injective _ h e1)) record { alias_ok = good; has_address = there }
  ]
  | inr bad ↦ err≢ok (rw bad at e)
]

build-IsBuilt : (defaults item : Item) (h : Host) → build defaults item ≡ ok h → IsBuilt h
unfolding build
build-IsBuilt defaults item h e =
    checked-IsBuilt (merge defaults item) _ _ (explicit_id item.node_id _) h e

check_jumps-All :
    (hs : List Host) (hosts more : Hosts)
    → check_jumps hs hosts ≡ ok more
    → (more ≡ hosts) × All (λ h. jump_ok hosts h.jump ≡ true) hs
unfolding check_jumps
check_jumps-All [] hosts more e = (sym (ok-injective hosts more e), tt)
check_jumps-All (h ∷ hs) hosts more e = elim (Bool-cases (jump_ok hosts h.jump)) [
  | inl good ↦ let r = check_jumps-All hs hosts more (rw good at e) in (r.0, (good, r.1))
  | inr bad ↦ err≢ok (rw bad at e)
]

All-both :
    (P Q : String × Host → Type 0) (hosts : Hosts)
    → All P hosts
    → All Q hosts
    → All (λ e. P e × Q e) hosts
All-both P Q [] a b = tt
All-both P Q (e ∷ hosts) a b = ((a.0, b.0), All-both P Q hosts a.1 b.1)

found-get :
    (hosts : Hosts) (es : Hosts)
    → All (λ e. lookup e.0 hosts ≡ some e.1) es
    → All (λ e. get e.0 hosts ≡ ok e.1) es
found-get hosts [] a = tt
found-get hosts (e ∷ es) a = ((unfold get in rw a.0 refl), found-get hosts es a.1)

module _ (sha256 : String → String) where
  abbrev IsOwn : String × Host → Type 0
  IsOwn e = (e.0 ≡ node_id sha256 e.1) × IsBuilt e.1

  add_host-keeps :
      (h : Host) (hosts more : Hosts)
      → IsBuilt h
      → add_host sha256 h hosts ≡ ok more
      → All IsOwn hosts × Distinct hosts
      → All IsOwn more × Distinct more
  unfolding add_host
  add_host-keeps h hosts more b e i =
      elim (Bool-cases (conflict h (lookup (node_id sha256 h) hosts))) [
        | inl clash ↦ err≢ok (rw clash at e)
        | inr free ↦ rw (sym (ok-injective (put (node_id sha256 h) h hosts) more (rw free at e))) (
          put-All IsOwn (node_id sha256 h) h hosts i.0 (refl, b),
          put-Distinct (node_id sha256 h) h hosts i.1,
        )
      ]

  add_items-keeps :
      (defaults : Item) (items : List Item) (hosts more : Hosts)
      → add_items sha256 defaults items hosts ≡ ok more
      → All IsOwn hosts × Distinct hosts
      → All IsOwn more × Distinct more
  unfolding add_items
  add_items-keeps defaults [] hosts more e i =
      let same = ok-injective hosts more e in rw (sym same) i
  add_items-keeps defaults (item ∷ items) hosts more e i =
      let (h, built, e1) =
        bind-ok (build defaults item)
          (λ h. add_host sha256 h hosts >>= (λ m. add_items sha256 defaults items m)) more e in
      let (m, added, e2) =
        bind-ok (add_host sha256 h hosts) (λ m. add_items sha256 defaults items m) more e1 in
      add_items-keeps defaults items m more e2
        (add_host-keeps h hosts m (build-IsBuilt defaults item h built) added i)

  -- An inventory that `load_inventory` returns: each key is its host's id and finds that host, each
  -- host has a valid alias and an address, and each jump host that is named is in the inventory.
  pub load_inventory_lem :
      (defaults : Item) (items : List Item) (hosts : Hosts)
      → load_inventory sha256 defaults items ≡ ok hosts
      → All (λ e. ((e.0 ≡ node_id sha256 e.1) × IsBuilt e.1) × (get e.0 hosts ≡ ok e.1)) hosts
        × All (λ h. jump_ok hosts h.jump ≡ true) (values hosts)
  unfolding load_inventory
  load_inventory_lem defaults items hosts e =
      let (all, added, e1) =
        bind-ok (add_items sha256 defaults items []) (λ hs. check_jumps (values hs) hs) hosts e in
      let jumps = check_jumps-All (values all) all hosts e1 in
      let kept = add_items-keeps defaults items [] all added (tt, tt) in
      rw jumps.0 (
        All-both IsOwn (λ x. get x.0 all ≡ ok x.1) all kept.0
            (found-get all all (lookup-own all kept.1)),
        jumps.1,
      )
