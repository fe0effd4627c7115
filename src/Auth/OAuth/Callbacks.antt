-- ===== src/Auth/OAuth/Callbacks.antt =====
-- The redirect_uri checks of src/vpsmcp/auth/oauth.py.
use letkite_lite.Prelude.{
  Bool, true, false, not, ◌&&◌, ◌||◌, String, ◌==◌, Option, none, some, List, [], ◌∷◌, ◌++◌, any,
  mem, keep, if◌then◌else◌,
}
use text.Mathlib.Text.{starts_with}
use letkite_lite.Settings.{Settings, allowed_redirect_prefixes}
use letkite_lite.Auth.Store.{Store}
use letkite_lite.Auth.Store.Redirects.{redirect_prefixes}
use letkite_lite.Auth.OAuth.{Url}

abbrev pub loopback_hosts : List String
loopback_hosts = "localhost" ∷ "127.0.0.1" ∷ "::1" ∷ "[::1]" ∷ []

-- u.path or "/"
abbrev pub path_of : Url → String
path_of u = if u.path == "" then "/" else u.path

abbrev pub is_loopback : Url → Bool
is_loopback u = u.scheme == "http" && mem u.hostname loopback_hosts

abbrev pub same_loopback : Url → Option Url → Bool
same_loopback u none = false
same_loopback u (some pu) = is_loopback pu && path_of pu == path_of u

-- `urlunparse` puts a URL together again. `urlparse` of a configured prefix that is no URL raises
-- ValueError out of the function; such a prefix matches nothing here.
module _ (urlparse : String → Option Url) (urlunparse : String → String → String) where
  abbrev pub allowed_url : Option Url → String → List String → Bool
  allowed_url none uri prefixes = false
  allowed_url (some u) uri prefixes =
      if u.scheme == "http"
      then if mem u.hostname loopback_hosts
        then any (λ p. same_loopback u (urlparse p)) prefixes
          || mem (urlunparse u.hostname (path_of u)) prefixes
        else false
      else if u.scheme == "https"
      then any (λ p. uri == p || starts_with uri p) prefixes
      else false

  unfoldable pub redirect_allowed : String → List String → Bool
  redirect_allowed uri prefixes = allowed_url (urlparse uri) uri prefixes

  -- Whether the loop of `_match_redirect` meets a registered callback that `urlparse` refuses before one that
  -- matches: its ValueError is not caught.
  abbrev pub same_or_raises : Url → Option Url → Bool → Bool
  same_or_raises u none rest = true
  same_or_raises u (some ru) rest = if same_loopback u (some ru) then false else rest

  abbrev pub loop_raises : Url → List String → Bool
  loop_raises u [] = false
  loop_raises u (r ∷ registered) = same_or_raises u (urlparse r) (loop_raises u registered)

  abbrev pub parsed_raises : Option Url → List String → Bool
  parsed_raises none registered = true
  parsed_raises (some u) registered = is_loopback u && loop_raises u registered

  -- `_match_redirect` lets the ValueError of `urlparse` out.
  unfoldable pub match_raises : String → List String → Bool
  match_raises uri registered = not (mem uri registered) && parsed_raises (urlparse uri) registered

  -- `_match_redirect` where it does not raise: is the callback one that the client registered?
  abbrev pub registered_loopback : Option Url → List String → Bool
  registered_loopback none registered = false
  registered_loopback (some u) registered =
      is_loopback u && any (λ r. same_loopback u (urlparse r)) registered

  unfoldable pub match_redirect : String → List String → Bool
  match_redirect uri registered =
      mem uri registered || registered_loopback (urlparse uri) registered

-- The configured prefixes, then the ones in the store.
unfoldable pub server_prefixes : Settings → Store → List String
server_prefixes c s =
    let out = allowed_redirect_prefixes c in
    out ++ keep (λ p. not (mem p out)) (redirect_prefixes s)
