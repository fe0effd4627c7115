-- ===== src/Ssh/Holders/Limits.antt =====
-- The limits on what `SessionManager` and `TunnelManager` of src/vpsmcp/ssh hold.
use letkite_lite.Prelude.{
  ℕ, suc, ◌≤◌, String, ◌==◌, List, [], ◌∷◌, length, leb, Result, ok, err, Bool-cases, inl, inr,
  arith,
}
use letkite_lite.Dict.{put}
use letkite_lite.Settings.{Settings}
use letkite_lite.Inventory.Host.{Host}
use letkite_lite.Inventory.Lookup.{Hosts}
use letkite_lite.Ssh.Pool.{Remote, Pool, SshError}
use letkite_lite.Ssh.Holders.{Gateway, Opening, Tunnel, open_tunnel, connection, start_tunnel}

length-put :
    (k : String) (t : Tunnel) (d : List (String × Tunnel)) → length (put k t d) ≤ suc (length d)
unfolding put
length-put k t [] = omega arith
length-put k t ((l, u) ∷ d) = elim (Bool-cases (l == k)) [
  | inl same ↦ rw same (omega arith)
  | inr other ↦ rw other (omega (arith, length-put k t d))
]

module _ (x : Remote) (c : Settings) (hosts : Hosts) where
  length-start :
      (id : String) (now : ℕ) (h : Host) (port : ℕ) (o : Opening) (g : Gateway)
      (r : Result SshError ℕ × Pool)
      → length (start_tunnel x c hosts id now h port o g r).1.tunnels ≤ suc (length g.tunnels)
  length-start id now h port o g (err e, pool) = omega arith
  length-start id now h port o g (ok conn, pool) = elim (Bool-cases o.starts) [
    | inl begun ↦ rw begun (length-put id _ g.tunnels)
    | inr failed ↦ rw failed (omega arith)
  ]

  -- However often it is asked, a gateway never has more tunnels than the limit.
  pub open_tunnel-limit :
      (max_tunnels : ℕ) (id : String) (now : ℕ) (h : Host) (port : ℕ) (o : Opening) (g : Gateway)
      → length g.tunnels ≤ max_tunnels
      → length (open_tunnel x c hosts max_tunnels id now h port o g).1.tunnels ≤ max_tunnels
  unfolding open_tunnel
  open_tunnel-limit max_tunnels id now h port o g le =
      elim (Bool-cases (leb max_tunnels (length g.tunnels))) [
        | inl full ↦ rw full le
        | inr room ↦
            rw room
              (ground (arith, room, length-start id now h port o g (connection x c hosts now h g)))
      ]
