-- ===== src/Tests/Holding.antt =====
-- The pool and its holders on small inputs.
use mathlib.Core.Path.{subst}
use letkite_lite.Prelude.{
  ℕ, ◌<◌, true, false, String, ◌==◌, ◌≡◌, refl, some, [], ◌∷◌, arith, if◌then◌else◌, ok,
  ok-injective,
}
use letkite_lite.Dict.{lookup}
use letkite_lite.Inventory.Host.{node_id}
use letkite_lite.Inventory.Lookup.{get}
use letkite_lite.Ssh.Pool.{Entry, acquire, reap}
use letkite_lite.Ssh.Pool.Ending.{acquire-ends, ends, GoesDown}
use letkite_lite.Ssh.Holders.{Gateway, open_tunnel}
use letkite_lite.Ssh.Holders.Pins.{holders}
use letkite_lite.Ssh.Holders.Pins.Steps.{
  holders-connected, Reach, start, then_step, tunnel_opens, no_gateway,
}
use letkite_lite.Tests.Hosts.{web, db, hosts}
use letkite_lite.Tests.Machines.{host, restarted, lenient, opening}

-- The database is reached through the web server.
abbrev rank : String → ℕ
rank nid = if nid == "n_0123456789" then 0 else 1

abbrev no_jump : GoesDown restarted lenient hosts 20 rank web
no_jump g named found = let never : true ≡ false = named in ground (arith, never)

db_down : GoesDown restarted lenient hosts 20 rank db
unfolding get node_id letkite_lite.Prelude.Text.slice_to letkite_lite.Prelude.Text.lower
db_down g named found =
    subst (λ j. rank (node_id restarted.sha256 j) < 1) (ok-injective web g found) (omega arith)

acquire-ends_example : ends (acquire restarted lenient hosts 20 4 [] db []).0 ≡ true
unfolding node_id letkite_lite.Prelude.Text.slice_to letkite_lite.Prelude.Text.lower
acquire-ends_example =
    acquire-ends restarted lenient hosts 20 rank db [] (refl, (refl, tt)) (no_jump, (db_down, tt))
      db_down

abbrev tunnelled : Gateway
tunnelled = (open_tunnel restarted lenient [] 8 "tun_1" 20 host 80 opening no_gateway).1

tunnelled-Reach : Reach tunnelled
unfolding lookup
tunnelled-Reach = then_step no_gateway tunnelled start (
    tunnel_opens restarted lenient [] 8 "tun_1" 20 host 80 opening no_gateway
      (record { alive = λ nid. refl; distinct = tt }) refl)

tunnelled-held : 0 < holders "n_0123456789" tunnelled
unfolding open_tunnel acquire lookup letkite_lite.Dict.put node_id
tunnelled-held = omega arith

holders-connected_example :
    (e : Entry) × (lookup "n_0123456789" tunnelled.pool ≡ some e)
    × (e.pinned ≡ holders "n_0123456789" tunnelled)
    × (lookup "n_0123456789" (reap 300 100000 tunnelled.pool).0 ≡ some e)
holders-connected_example =
    holders-connected tunnelled "n_0123456789" 300 100000 tunnelled-Reach tunnelled-held
