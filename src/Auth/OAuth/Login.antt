-- ===== src/Auth/OAuth/Login.antt =====
-- The login endpoint of src/vpsmcp/auth/oauth.py.
use letkite_lite.Prelude.{ℕ, ◌+◌, Bool, true, false, String, Option, none, some, if◌then◌else◌, eqb}
use letkite_lite.Prelude.Text.{compare_digest}
use letkite_lite.Net.{Source}
use letkite_lite.Settings.{Settings}
use letkite_lite.Auth.Store.Logins.{login_locked, login_failed, login_ok, put_session}
use letkite_lite.Auth.OAuth.{External, Fresh, Event, World, Form, form_get, write, seconds}
use letkite_lite.Auth.OAuth
use letkite_lite.Auth.OAuth.Cookies.{sign_cookie}
use letkite_lite.Auth.OAuth.Token.{caller}

pub record LoginRequest : Type 0 where
  pub form : Form
  pub source : Source
  pub clock : ℕ
  pub fresh : Fresh

pub data LoginReply : Type 0 where
  -- the seconds that are left
  locked_out : ℕ → LoginReply
  incorrect server_error : LoginReply
  -- the cookie
  welcome : String → LoginReply

module _ (x : External) (c : Settings) where
  -- hmac.compare_digest(user, admin_user) and verify_password(pwd, hash)
  unfoldable pub credentials_ok : Form → Option Bool
  unfolding compare_digest
  credentials_ok form = elim (compare_digest (form_get "username" form) c.admin_user) [
    | none ↦ none
    | some false ↦ some false
    | some true ↦ some (x.verify_password (form_get "password" form) c.admin_password_hash)
  ]

  abbrev pub after_credentials : LoginRequest → Option Bool → World → LoginReply × World
  after_credentials req none w = (server_error, w)
  after_credentials req (some false) w =
      let ip = caller c req.source in
      (
        incorrect,
        write (OAuth.login_failed (form_get "username" req.form) ip)
            (record w { store = login_failed ip (seconds req.clock) w.store }),
      )
  after_credentials req (some true) w =
      let ip = caller c req.source in
      let s =
        put_session x.sha req.fresh.sid c.admin_user (seconds req.clock + c.login_session_ttl)
          (login_ok ip w.store) in
      (
        welcome (sign_cookie x req.fresh.sid),
        write (OAuth.logged_in (form_get "username" req.form) ip) (record w { store = s }),
      )

  unfoldable pub login : LoginRequest → World → LoginReply × World
  login req w =
      let left = login_locked (caller c req.source) (seconds req.clock) w.store in
      if eqb left 0 then after_credentials req (credentials_ok req.form) w else (locked_out left, w)
