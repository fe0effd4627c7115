-- ===== src/Auth/Store/Redirects.antt =====
-- The redirect allowlist of src/vpsmcp/auth/store.py.
use Prim.Native.String
use letkite_lite.Prelude.{
  ℕ, ◌+◌, Bool, ◌||◌, String, ◌==◌, List, [], ◌∷◌, ◌++◌, map, any, length, take, if◌then◌else◌, ltb,
  leb,
}
use letkite_lite.Prelude.Text.{slice_to, like}
use letkite_lite.Sql.{delete, update, replace, order_by}
use letkite_lite.Auth.Store.{Store, AllowRow, RejectRow}

-- uri=? OR uri LIKE ?
abbrev pub under_prefix : String → RejectRow → Bool
under_prefix prefix r = r.uri == prefix || like (String.◌++◌ prefix "%") r.uri

unfoldable pub allow_redirect : String → String → ℕ → Store → Store
allow_redirect prefix note now s = record s {
  redirect_allow =
      replace (λ r. r.prefix == prefix) (record { prefix = prefix; note = note; created_at = now })
        s.redirect_allow;
  redirect_rejects = delete (under_prefix prefix) s.redirect_rejects;
}

unfoldable pub disallow_redirect : String → Store → Bool × Store
disallow_redirect prefix s =
    let rest = delete (λ (r : AllowRow). r.prefix == prefix) s.redirect_allow in
    (ltb (length rest) (length s.redirect_allow), record s { redirect_allow = rest })

-- ORDER BY created_at
unfoldable pub redirect_allow_rows : Store → List AllowRow
redirect_allow_rows s = order_by (λ a b. ltb a.created_at b.created_at) s.redirect_allow

unfoldable pub redirect_prefixes : Store → List String
unfolding redirect_allow_rows
redirect_prefixes s = map (λ r. r.prefix) (redirect_allow_rows s)

abbrev pub has_uri : String → RejectRow → Bool
has_uri uri r = r.uri == uri

-- One more hit; COALESCE(NULLIF(?, ''), client_name) keeps the old name if the new one is empty.
abbrev pub count_hit : String → ℕ → RejectRow → RejectRow
count_hit name now r = record r {
  hits = r.hits + 1;
  last_seen = now;
  client_name = if name == "" then r.client_name else name;
}

-- The rows after a refusal of `uri`, already cut to its length, by a client called `name`.
abbrev pub note_row : String → String → ℕ → ℕ → List RejectRow → List RejectRow
note_row uri name cap now t =
    if any (has_uri uri) t
    then update (has_uri uri) (count_hit name now) t
    else if leb cap (length t)
    then t
    else t
      ++ record { uri = uri; client_name = name; hits = 1; first_seen = now; last_seen = now } ∷ []

unfoldable pub note_rejected_redirect : String → String → ℕ → ℕ → Store → Store
unfolding slice_to
note_rejected_redirect uri client_name cap now s = record s {
  redirect_rejects =
      note_row (slice_to 400 uri) (slice_to 120 client_name) cap now s.redirect_rejects;
}

abbrev pub reject_cap : ℕ
reject_cap = 200

unfoldable pub rejected_redirects : ℕ → Store → List RejectRow
rejected_redirects limit s =
    take limit (order_by (λ a b. ltb b.last_seen a.last_seen) s.redirect_rejects)

unfoldable pub clear_rejected_redirects : Store → Store
clear_rejected_redirects s = record s { redirect_rejects = [] }
