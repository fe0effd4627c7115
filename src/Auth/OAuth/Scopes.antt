-- ===== src/Auth/OAuth/Scopes.antt =====
-- `_norm_scopes` of src/vpsmcp/auth/oauth.py, and the narrowing of a refresh.
use letkite_lite.Prelude.{not, ◌||◌, String, ◌==◌, List, [], ◌∷◌, ◌++◌, keep, mem, if◌then◌else◌}
use letkite_lite.Prelude.Text.{words, unwords}

-- list(dict.fromkeys(xs)): the first of each
unfoldable pub from_keys : List String → List String → List String
from_keys seen [] = []
from_keys seen (x ∷ xs) =
    (if mem x seen then [] else x ∷ []) ++ from_keys (if mem x seen then seen else x ∷ seen) xs

abbrev pub or_else : String → String → String
or_else s d = if s == "" then d else s

-- The scopes that were asked for and are allowed, without repetition; all of them if none is.
abbrev pub norm_words : List String → List String → String
norm_words [] allowed = unwords allowed
norm_words (w ∷ ws) allowed =
    or_else (unwords (from_keys [] (keep (λ s. mem s allowed || s == "offline_access") (w ∷ ws))))
      (unwords allowed)

unfoldable pub norm_scopes : String → List String → String
unfolding from_keys words unwords
norm_scopes requested allowed = norm_words (words requested) allowed

-- The narrowing of `_grant_refresh`: asked-for scopes that the token has, or all that it has.
unfoldable pub refresh_scope : String → String → List String → String
unfolding norm_scopes
refresh_scope requested held allowed =
    or_else
      (unwords
        (keep (λ s. mem s (words held)) (words (norm_scopes (or_else requested held) allowed))))
      held

-- What the access token carries: all but `offline_access`.
unfoldable pub access_scope : String → String
unfolding words unwords
access_scope scope = unwords (keep (λ s. not (s == "offline_access")) (words scope))
