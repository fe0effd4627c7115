-- ===== src/Auth/OAuth/Cookies.antt =====
-- The session cookie of src/vpsmcp/auth/oauth.py: "<sid>.<mac>".
use Prim.Native.String
use letkite_lite.Prelude.{
  ℕ, Bool, true, false, ◌||◌, String, ◌==◌, Option, none, some, if◌then◌else◌,
}
use letkite_lite.Prelude.Text.{partition, compare_digest}
use letkite_lite.Auth.Store.{Store}
use letkite_lite.Auth.Store.Logins.{get_session}
use letkite_lite.Auth.OAuth.{External, seconds}

-- An answer, or an exception that nothing catches.
pub data Checked {ℓ} (A : Type ℓ) : Type ℓ where
  ok : A → Checked A
  raised : Checked A

module _ (x : External) where
  unfoldable pub sign_cookie : String → String
  sign_cookie sid = String.◌++◌ sid (String.◌++◌ "." (x.cookie_mac sid))

  abbrev pub accept_mac : String → Option Bool → Checked (Option String)
  accept_mac sid none = raised
  accept_mac sid (some true) = ok (some sid)
  accept_mac sid (some false) = ok none

  unfoldable pub unsign : String → Checked (Option String)
  unfolding partition compare_digest
  unsign raw =
      let (sid, mac) = partition b'.' raw in
      if sid == "" || mac == ""
      then ok none
      else accept_mac sid (compare_digest mac (x.cookie_mac sid))

  abbrev pub session_subject : Checked (Option String) → ℕ → Store → Checked (Option String)
  session_subject raised now s = raised
  session_subject (ok none) now s = ok none
  session_subject (ok (some sid)) now s = ok (get_session x.sha sid now s)

  -- `cookie` is "" if the request has none.
  unfoldable pub current_subject : String → ℕ → Store → Checked (Option String)
  current_subject cookie clock s =
      if cookie == "" then ok none else session_subject (unsign cookie) (seconds clock) s
