-- ===== src/Enroll/Store.antt =====
-- `EnrollStore` of src/vpsmcp/enroll.py: the tables of the nodes that were seen, of the hosts that wait for an
-- approval, and of the failed attempts. `now` is `int(time.time())`.
use letkite_lite.Prelude.{
  ℕ, ◌+◌, ◌-◌, ◌*◌, ◌^◌, min, Bool, String, ◌==◌, Option, none, some, List, [], ◌∷◌, ◌++◌, find,
  any, if◌then◌else◌, ltb, leb,
}
use letkite_lite.Sql.{update, delete, replace, order_by}
use letkite_lite.Inventory.Files.{HostDoc}

pub record NodeRow : Type 0 where
  pub node_id : String
  pub alias : String
  pub address : String
  pub node_user : String
  pub port : ℕ
  pub first_seen : ℕ
  pub last_seen : ℕ
  pub enrolls : ℕ

pub record PendingRow : Type 0 where
  pub node_id : String
  pub payload : HostDoc
  pub created_at : ℕ

pub record AttemptRow : Type 0 where
  pub ip : String
  pub fails : ℕ
  pub locked_until : ℕ

pub record EnrollStore : Type 0 where
  pub nodes : List NodeRow
  pub pending : List PendingRow
  pub attempts : List AttemptRow

abbrev pub is_node : String → NodeRow → Bool
is_node nid r = r.node_id == nid

abbrev pub is_pending : String → PendingRow → Bool
is_pending nid r = r.node_id == nid

abbrev pub is_attempt : String → AttemptRow → Bool
is_attempt ip r = r.ip == ip

unfoldable pub seen : ℕ → String → String → String → ℕ → String → EnrollStore → EnrollStore
seen now nid address user port alias s = record s {
  nodes =
      if any (is_node nid) s.nodes
      then update (is_node nid)
          (λ (r : NodeRow). record r { alias = alias; last_seen = now; enrolls = r.enrolls + 1 })
          s.nodes
      else s.nodes
        ++ (record {
          node_id = nid;
          alias = alias;
          address = address;
          node_user = user;
          port = port;
          first_seen = now;
          last_seen = now;
          enrolls = 1;
        })
          ∷ [];
}

unfoldable pub nodes_seen : EnrollStore → List NodeRow
nodes_seen s = order_by (λ a b. ltb b.last_seen a.last_seen) s.nodes

unfoldable pub forget : String → EnrollStore → EnrollStore
forget nid s = record s {
  nodes = delete (is_node nid) s.nodes;
  pending = delete (is_pending nid) s.pending;
}

unfoldable pub pend : ℕ → String → HostDoc → EnrollStore → EnrollStore
pend now nid doc s = record s {
  pending =
      replace (is_pending nid) (record { node_id = nid; payload = doc; created_at = now })
        s.pending;
}

unfoldable pub pending_hosts : EnrollStore → List PendingRow
pending_hosts s = order_by (λ a b. ltb b.created_at a.created_at) s.pending

abbrev taken : String → EnrollStore → Option PendingRow → Option HostDoc × EnrollStore
taken nid s none = (none, s)
taken nid s (some r) = (some r.payload, record s { pending = delete (is_pending nid) s.pending })

unfoldable pub take_pending : String → EnrollStore → Option HostDoc × EnrollStore
take_pending nid s = taken nid s (find (is_pending nid) s.pending)

abbrev pub left : ℕ → Option AttemptRow → ℕ
left now none = 0
left now (some r) = r.locked_until - now

-- max(0, locked_until - now)
unfoldable pub locked : ℕ → String → EnrollStore → ℕ
locked now ip s = left now (find (is_attempt ip) s.attempts)

abbrev pub fails_so_far : Option AttemptRow → ℕ
fails_so_far none = 0
fails_so_far (some r) = r.fails

-- The lock of the n-th failure.
abbrev pub lock_of : ℕ → ℕ → ℕ
lock_of now n = if leb 5 n then now + min 1800 (2 ^ min n 11) else 0

unfoldable pub failed : ℕ → String → EnrollStore → EnrollStore
failed now ip s =
    let n = fails_so_far (find (is_attempt ip) s.attempts) + 1 in
    record s {
      attempts =
          replace (is_attempt ip) (record { ip = ip; fails = n; locked_until = lock_of now n })
            s.attempts;
    }

-- `EnrollStore.ok`
unfoldable pub succeeded : String → EnrollStore → EnrollStore
succeeded ip s = record s { attempts = delete (is_attempt ip) s.attempts }

unfoldable pub gc : ℕ → EnrollStore → EnrollStore
gc now s = record s { pending = delete (λ r. ltb r.created_at (now - 30 * 86400)) s.pending }
