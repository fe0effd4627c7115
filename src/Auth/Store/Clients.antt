-- ===== src/Auth/Store/Clients.antt =====
-- The client methods of src/vpsmcp/auth/store.py.
use letkite_lite.Prelude.{ℕ, Bool, true, String, ◌==◌, Option, List, map, ltb, find}
use letkite_lite.Sql.{delete, update, replace, order_by}
use letkite_lite.Auth.Store.{Store, Metadata, ClientRow}

abbrev pub has_client_id : String → ClientRow → Bool
has_client_id id r = r.client_id == id

unfoldable pub put_client : String → Metadata → Option String → ℕ → Store → Store
put_client id meta secret now s = record s {
  clients =
      replace (has_client_id id)
        (record { client_id = id; secret_hash = secret; metadata = meta; created_at = now })
        s.clients;
}

unfoldable pub get_client : String → Store → Option ClientRow
get_client id s = find (has_client_id id) s.clients

-- ORDER BY created_at DESC
unfoldable pub list_clients : Store → List (String × String × ℕ)
list_clients s =
    map (λ r. (r.client_id, r.metadata.client_name, r.created_at))
      (order_by (λ a b. ltb b.created_at a.created_at) s.clients)

unfoldable pub delete_client : String → Store → Store
delete_client id s = record s {
  clients = delete (has_client_id id) s.clients;
  refresh_tokens =
      update (λ r. r.client_id == id) (λ r. record r { revoked = true }) s.refresh_tokens;
}
