-- ===== src/Auth/Store/Logins.antt =====
-- Login sessions and the login rate limit of src/vpsmcp/auth/store.py.
use letkite_lite.Prelude.{
  ℕ, ◌+◌, ◌-◌, ◌^◌, min, Bool, ◌&&◌, String, ◌==◌, Option, none, some, List, [], map, find, length,
  if◌then◌else◌, ltb, leb,
}
use letkite_lite.Sql.{delete, replace, order_by}
use letkite_lite.Auth.Store.{Store, SessionRow, AttemptRow}

abbrev pub has_ip : String → AttemptRow → Bool
has_ip ip r = r.ip == ip

module _ (sha : String → String) where
  unfoldable pub put_session : String → String → ℕ → Store → Store
  put_session sid subject expires_at s = record s {
    login_sessions =
        replace (λ (r : SessionRow). r.sid_hash == sha sid)
          (record { sid_hash = sha sid; subject = subject; expires_at = expires_at })
          s.login_sessions;
  }

  abbrev pub subject_of : Option SessionRow → Option String
  subject_of none = none
  subject_of (some r) = some r.subject

  unfoldable pub get_session : String → ℕ → Store → Option String
  get_session sid now s =
      subject_of
        (find (λ (r : SessionRow). r.sid_hash == sha sid && ltb now r.expires_at) s.login_sessions)

  unfoldable pub drop_session : String → Store → Store
  drop_session sid s = record s {
    login_sessions = delete (λ (r : SessionRow). r.sid_hash == sha sid) s.login_sessions;
  }

-- `max(0, locked_until - now)`
abbrev pub locked_for : ℕ → Option AttemptRow → ℕ
locked_for now none = 0
locked_for now (some r) = r.locked_until - now

unfoldable pub login_locked : String → ℕ → Store → ℕ
login_locked ip now s = locked_for now (find (has_ip ip) s.login_attempts)

abbrev pub fails_of : Option AttemptRow → ℕ
fails_of none = 0
fails_of (some r) = r.fails

-- The lock that the n-th failure sets.
unfoldable pub login_lock : ℕ → ℕ → ℕ
login_lock n now = if leb 5 n then now + min 900 (2 ^ min n 9) else 0

unfoldable pub login_failed : String → ℕ → Store → Store
unfolding login_lock
login_failed ip now s =
    let fails = fails_of (find (has_ip ip) s.login_attempts) + 1 in
    record s {
      login_attempts =
          replace (has_ip ip)
            (record { ip = ip; fails = fails; locked_until = login_lock fails now })
            s.login_attempts;
    }

unfoldable pub login_ok : String → Store → Store
login_ok ip s = record s { login_attempts = delete (has_ip ip) s.login_attempts }

abbrev pub clear_one : String → Store → ℕ × Store
clear_one ip s =
    let rest = delete (has_ip ip) s.login_attempts in
    (length s.login_attempts - length rest, record s { login_attempts = rest })

-- The rows removed, and the store. An empty address clears them all, as a missing one does.
unfoldable pub clear_login_locks : Option String → Store → ℕ × Store
clear_login_locks none s = (length s.login_attempts, record s { login_attempts = [] })
clear_login_locks (some ip) s =
    if ip == "" then (length s.login_attempts, record s { login_attempts = [] }) else clear_one ip s

-- Address, failures and the seconds that are left. ORDER BY locked_until DESC
unfoldable pub login_locks : ℕ → Store → List (String × ℕ × ℕ)
login_locks now s =
    map (λ r. (r.ip, r.fails, r.locked_until - now))
      (order_by (λ a b. ltb b.locked_until a.locked_until) s.login_attempts)
