-- ===== src/Auth/Profiles.antt =====
-- src/vpsmcp/auth/clients.py: the client profiles and their redirect prefixes. Keys are compared
-- in lower case over ASCII. The display notes are left out.
use letkite_lite.Prelude.{
  Bool, ◌||◌, String, ◌==◌, Option, none, some, List, [], ◌∷◌, ◌++◌, any, keep, not, is_some, find,
  mem, if◌then◌else◌,
}
use text.Mathlib.Text.{starts_with}
use letkite_lite.Prelude.Text.{strip, lower_eq}

pub record ClientProfile : Type 0 where
  pub key : String
  pub name : String
  pub redirects : List String

unfoldable pub matches : ClientProfile → String → Bool
matches profile uri = any (λ p. uri == p || starts_with uri p) profile.redirects

abbrev pub claude : ClientProfile
claude = record {
  key = "claude";
  name = "Claude";
  redirects =
      "https://claude.ai/api/mcp/auth_callback" ∷ "https://claude.com/api/mcp/auth_callback" ∷ [];
}

abbrev pub local : ClientProfile
local = record {
  key = "local";
  name = "Local clients";
  redirects = "http://localhost/callback" ∷ "http://127.0.0.1/callback" ∷ [];
}

abbrev pub kimi : ClientProfile
kimi = record {
  key = "kimi";
  name = "Kimi (Moonshot AI)";
  redirects =
      "https://kimi.com/" ∷ "https://www.kimi.com/" ∷ "https://kimi.moonshot.cn/"
      ∷ "https://www.kimi.moonshot.cn/" ∷ "https://platform.moonshot.cn/"
      ∷ "https://platform.moonshot.ai/" ∷ [];
}

abbrev pub glm : ClientProfile
glm = record {
  key = "glm";
  name = "GLM (Zhipu AI / Z.ai)";
  redirects =
      "https://chat.z.ai/" ∷ "https://z.ai/" ∷ "https://chatglm.cn/" ∷ "https://www.chatglm.cn/"
      ∷ "https://open.bigmodel.cn/" ∷ "https://bigmodel.cn/" ∷ [];
}

unfoldable pub profiles : List ClientProfile
profiles = claude ∷ local ∷ kimi ∷ glm ∷ []

-- PROFILES.get(k.strip().lower())
unfoldable pub profile_of_key : String → Option ClientProfile
unfolding profiles strip lower_eq
profile_of_key k = find (λ p. lower_eq (strip k) p.key) profiles

-- The round for one key: `seen` holds the keys of the profiles that are out already.
abbrev pub add_profile : Option ClientProfile → List String → List ClientProfile × List String
add_profile none seen = ([], seen)
add_profile (some p) seen = if mem p.key seen then ([], seen) else (p ∷ [], p.key ∷ seen)

unfoldable pub enabled_from : List String → List String → List ClientProfile
unfolding profile_of_key
enabled_from seen [] = []
enabled_from seen (k ∷ keys) =
    (add_profile (profile_of_key k) seen).0
    ++ enabled_from (add_profile (profile_of_key k) seen).1 keys

unfoldable pub enabled_profiles : List String → List ClientProfile
unfolding enabled_from
enabled_profiles keys = enabled_from [] keys

-- out.extend(r for r in rs if r not in out): the generator tests against the growing list.
unfoldable pub extend_new : List String → List String → List String
extend_new out [] = out
extend_new out (r ∷ rs) = extend_new (if mem r out then out else out ++ r ∷ []) rs

unfoldable pub collect_redirects : List String → List ClientProfile → List String
unfolding extend_new
collect_redirects out [] = out
collect_redirects out (p ∷ ps) = collect_redirects (extend_new out p.redirects) ps

unfoldable pub redirects_for : List String → List String
unfolding collect_redirects enabled_profiles
redirects_for keys = collect_redirects [] (enabled_profiles keys)

unfoldable pub profile_for_redirect : String → List String → Option ClientProfile
unfolding matches enabled_profiles
profile_for_redirect uri keys = find (λ p. matches p uri) (enabled_profiles keys)

-- The keys that name no profile.
unfoldable pub unknown_keys : List String → List String
unfolding profile_of_key
unknown_keys keys = keep (λ k. not (is_some (profile_of_key k))) keys
