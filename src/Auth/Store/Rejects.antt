-- ===== src/Auth/Store/Rejects.antt =====
-- The table of refused callbacks of src/vpsmcp/auth/store.py is bounded.
use letkite_lite.Prelude.{ℕ, ◌≤◌, String, List, [], ◌∷◌, arith, length, length-append}
use letkite_lite.Prelude.Text.{slice_to}
use letkite_lite.Sql.{length-update}
use letkite_lite.Auth.Store.{Store, RejectRow}
use letkite_lite.Auth.Store.Redirects.{note_row, note_rejected_redirect, has_uri, count_hit}

abbrev pub rejects : Store → ℕ
rejects s = length s.redirect_rejects

pub length-note_row :
    (uri name : String) (cap now : ℕ) (t : List RejectRow)
    → length t ≤ cap
    → length (note_row uri name cap now t) ≤ cap
length-note_row uri name cap now t h = ground (
  arith,
  length-update (has_uri uri) (count_hit name now) t,
  length-append t
      (record { uri = uri; client_name = name; hits = 1; first_seen = now; last_seen = now } ∷ []),
)

-- Noting a refused callback leaves no more rows than the cap, if there were no more before.
pub rejects-note_rejected_redirect :
    (uri name : String) (cap now : ℕ) (s : Store)
    → rejects s ≤ cap
    → rejects (note_rejected_redirect uri name cap now s) ≤ cap
unfolding note_rejected_redirect
rejects-note_rejected_redirect uri name cap now s h =
    length-note_row (slice_to 400 uri) (slice_to 120 name) cap now s.redirect_rejects h
