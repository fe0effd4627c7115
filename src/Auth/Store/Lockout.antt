-- ===== src/Auth/Store/Lockout.antt =====
-- The login rate limit of src/vpsmcp/auth/store.py: how long a lock lasts, and whom it touches.
use letkite_lite.Prelude.{
  ℕ, ◌+◌, ◌-◌, ◌^◌, ◌≤◌, min, true, false, String, ◌≡◌, ◌≢◌, refl, some, arith, eq_iff, eq_refl,
  find, inl, inr, ◌⊎◌,
}
use letkite_lite.Sql.{delete, find-replace, find-delete, find-delete_self, find-concat}
use letkite_lite.Auth.Store.{Store, AttemptRow}
use letkite_lite.Auth.Store.Logins.{
  has_ip, fails_of, login_lock, login_locked, login_failed, login_ok,
}

-- The failures that are counted for an address.
abbrev pub failures : String → Store → ℕ
failures ip s = fails_of (find (has_ip ip) s.login_attempts)

power_cases : (n : ℕ) → 5 ≤ n → (n ≡ 5) ⊎ ((n ≡ 6) ⊎ ((n ≡ 7) ⊎ ((n ≡ 8) ⊎ (min n 9 ≡ 9))))
power_cases n h = omega arith

-- From the fifth failure on, the lock lasts 2 ^ min n 9 seconds: at least 32 and at most 512, so
-- that the ceiling of 900 seconds is never met.
pub login_lock-eq : (n now : ℕ) → 5 ≤ n → login_lock n now ≡ now + 2 ^ min n 9
unfolding login_lock
login_lock-eq n now h = elim (power_cases n h) [
  | inl e ↦ rw e refl
  | inr (inl e) ↦ rw e refl
  | inr (inr (inl e)) ↦ rw e refl
  | inr (inr (inr (inl e))) ↦ rw e refl
  | inr (inr (inr (inr e))) ↦ ground (arith, e)
]

-- From the fifth failure on, the lock that is set lasts at least 32 and at most 512 seconds.
pub login_lock_bounds :
    (n now : ℕ) → 5 ≤ n → (now + 32 ≤ login_lock n now) × (login_lock n now ≤ now + 512)
login_lock_bounds n now h = rw (login_lock-eq n now h) (elim (power_cases n h) [
  | inl e ↦ rw e (omega arith)
  | inr (inl e) ↦ rw e (omega arith)
  | inr (inr (inl e)) ↦ rw e (omega arith)
  | inr (inr (inr (inl e))) ↦ rw e (omega arith)
  | inr (inr (inr (inr e))) ↦ rw e (omega arith)
])

-- A failure is counted for its own address and sets that address's lock.
pub find-login_failed_self :
    (ip : String) (now : ℕ) (s : Store)
    → find (has_ip ip) (login_failed ip now s).login_attempts
      ≡ some (record {
        ip = ip;
        fails = failures ip s + 1;
        locked_until = login_lock (failures ip s + 1) now;
      })
unfolding login_failed
find-login_failed_self ip now s = find-replace (has_ip ip) _ s.login_attempts (eq_refl ip)

-- No other address is touched.
pub find-login_failed_ne :
    (ip other : String) (now : ℕ) (s : Store)
    → ip ≢ other
    → find (has_ip other) (login_failed ip now s).login_attempts
      ≡ find (has_ip other) s.login_attempts
unfolding login_failed
find-login_failed_ne ip other now s ne = ground (
  arith,
  eq_iff ip other,
  find-concat (has_ip other) (delete (has_ip ip) s.login_attempts) (record {
    ip = ip;
    fails = failures ip s + 1;
    locked_until = login_lock (failures ip s + 1) now;
  }),
  find-delete (has_ip other) (has_ip ip) distinct s.login_attempts,
)
  where
    distinct : (r : AttemptRow) → has_ip other r ≡ true → has_ip ip r ≡ false
    distinct r h = ground (arith, eq_iff r.ip other, eq_iff r.ip ip)

pub failures-login_failed :
    (ip : String) (now : ℕ) (s : Store) → failures ip (login_failed ip now s) ≡ failures ip s + 1
failures-login_failed ip now s = rw (find-login_failed_self ip now s)

-- After the n-th failure, n from 5 on, the address is locked until 2 ^ min n 9 seconds have gone.
pub login_locked-login_failed :
    (ip : String) (now later : ℕ) (s : Store)
    → 4 ≤ failures ip s
    → login_locked ip later (login_failed ip now s) ≡ now + 2 ^ min (failures ip s + 1) 9 - later
unfolding login_locked
login_locked-login_failed ip now later s h =
    rw (find-login_failed_self ip now s, login_lock-eq (failures ip s + 1) now (omega arith))

-- A successful login forgets the failures.
pub failures-login_ok : (ip : String) (s : Store) → failures ip (login_ok ip s) ≡ 0
unfolding login_ok
failures-login_ok ip s = rw (find-delete_self (has_ip ip) s.login_attempts)
