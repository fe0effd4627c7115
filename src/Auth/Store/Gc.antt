-- ===== src/Auth/Store/Gc.antt =====
-- `gc` of src/vpsmcp/auth/store.py. A bound such as `now - 3600` is moved to the other side.
use letkite_lite.Prelude.{ℕ, ◌+◌, ◌*◌, ltb}
use letkite_lite.Sql.{delete}
use letkite_lite.Auth.Store.{Store}

unfoldable pub gc : ℕ → Store → Store
gc now s = record s {
  auth_codes = delete (λ r. ltb (r.expires_at + 3600) now) s.auth_codes;
  refresh_tokens = delete (λ r. ltb (r.expires_at + 86400) now) s.refresh_tokens;
  login_sessions = delete (λ r. ltb r.expires_at now) s.login_sessions;
  redirect_rejects = delete (λ r. ltb (r.last_seen + 30 * 86400) now) s.redirect_rejects;
}
