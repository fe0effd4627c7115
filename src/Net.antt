-- ===== src/Net.antt =====
-- src/vpsmcp/netutil.py: the caller's address behind trusted proxies.
pub mod Spoofing
use mathlib.Core.List.{reverse}
use letkite_lite.Prelude.{
  ℕ, zero, suc, ◌+◌, ◌-◌, ◌≤◌, Bool, String, ◌==◌, Option, none, some, List, map, keep, length,
  get_elem?, if◌then◌else◌, leb, non_empty,
}
use letkite_lite.Prelude.Text.{split_on, strip}

-- What the function reads of a request: the direct peer, empty if unknown, and the header
-- `x-forwarded-for`, empty if absent.
pub record Source : Type 0 where
  pub peer : String
  pub forwarded_for : String

-- [p.strip() for p in xff.split(",") if p.strip()]
unfoldable pub forwarded : String → List String
unfolding split_on strip
forwarded xff = keep non_empty (map strip (split_on b',' xff))

abbrev pub or_peer : String → Option String → String
or_peer peer none = peer
or_peer peer (some ip) = ip

-- The setting is an integer: a negative number of hops is the same as 0 and is not modelled.
unfoldable pub client_ip : Source → ℕ → String
client_ip req zero = req.peer
client_ip req (suc hops) =
    let parts = forwarded req.forwarded_for in
    if leb (suc hops) (length parts)
    then or_peer req.peer (get_elem? parts (length parts - suc hops))
    else req.peer
