-- ===== src/Auth/History.antt =====
-- The server's life as a sequence of requests and store operations.
mod Codes
pub mod Spent
use letkite_lite.Prelude.{ℕ, String, Option, List, [], ◌∷◌}
use letkite_lite.Settings.{Settings}
use letkite_lite.Auth.Store.{Store}
use letkite_lite.Auth.Store.Clients.{delete_client}
use letkite_lite.Auth.Store.Logins.{clear_login_locks}
use letkite_lite.Auth.Store.Redirects.{allow_redirect, disallow_redirect, clear_rejected_redirects}
use letkite_lite.Auth.Store.Refresh.{revoke_family}
use letkite_lite.Auth.Store.Gc.{gc}
use letkite_lite.Auth.OAuth.{External, World}
use letkite_lite.Auth.OAuth.Token.{TokenRequest, token, revoke}
use letkite_lite.Auth.OAuth.Authorize.{AuthorizeRequest, authorize}
use letkite_lite.Auth.OAuth.Login.{LoginRequest, login}
use letkite_lite.Auth.OAuth.Register.{RegisterRequest, register}

-- The endpoints, the start of the server (`gc`), and what `vpsmcp` does to the tables from the
-- command line.
pub data Call : Type 0 where
  to_token to_revoke : TokenRequest → Call
  to_authorize : AuthorizeRequest → Call
  to_login : LoginRequest → Call
  to_register : RegisterRequest → Call
  collect : ℕ → Call
  remove_client : String → Call
  cut_family : String → Call
  allow : String → String → ℕ → Call
  disallow : String → Call
  unlock : Option String → Call
  clear_rejects : Call

abbrev pub on_store : (Store → Store) → World → World
on_store f w = record w { store = f w.store }

module _ (x : External) (c : Settings) where
  unfoldable pub step : Call → World → World
  step (to_token req) w = (token x c req w).1
  step (to_revoke req) w = revoke x c req w
  step (to_authorize req) w = (authorize x c req w).1
  step (to_login req) w = (login x c req w).1
  step (to_register req) w = (register x c req w).1
  step (collect now) w = on_store (gc now) w
  step (remove_client id) w = on_store (delete_client id) w
  step (cut_family f) w = on_store (revoke_family f) w
  step (allow prefix note now) w = on_store (allow_redirect prefix note now) w
  step (disallow prefix) w = on_store (λ s. (disallow_redirect prefix s).1) w
  step (unlock ip) w = on_store (λ s. (clear_login_locks ip s).1) w
  step clear_rejects w = on_store clear_rejected_redirects w

  unfoldable pub run : List Call → World → World
  unfolding step
  run [] w = w
  run (call ∷ calls) w = run calls (step call w)
