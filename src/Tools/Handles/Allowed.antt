-- ===== src/Tools/Handles/Allowed.antt =====
-- A handle is not a capability: what the tools of src/vpsmcp/tools that take an id of a shell, a log or a tunnel
-- need before they touch its node.
use letkite_lite.Prelude.{
  ℕ, Bool, true, false, String, ◌≡◌, refl, sym, List, [], ◌∷◌, Option, none, some, All, Result, ok,
  err, if◌then◌else◌,
}
use letkite_lite.Inventory.Host.{Host}
use letkite_lite.Inventory.Lookup.{get}
use letkite_lite.Policy.{PolicyError, check_command}
use letkite_lite.Runtime.{ToolError, resolve, require}
use letkite_lite.Runtime.Resolve.{IsAllowed, resolve-IsAllowed}
use letkite_lite.Ssh.Session.{Reply, Outcome, replied, is_closed, timed_out, exited_early, run}
use letkite_lite.Ssh.Holders.{
  Gateway, Session, Tunnel, Subscription, HolderError, get_session, get_tunnel, get_log,
}
use letkite_lite.Tools.{Bench}
use letkite_lite.Tools.Handles.{
  Touch, typed, requested, rows_read, noted, Handled, RunCall, Shell, shell_run, run_found,
  run_allowed, run_checked, run_in, answered, with_session, log_read, read_found, rows_of,
}
use letkite_lite.Tools.Handles.Forwarding.{
  tunnel_http, http_required, http_found, http_allowed, replied_with, url_path,
}

-- The caller may do on the node's host, as the inventory has it now, what is needed.
pub record MayUse (b : Bench) (need nid : String) : Type 0 where
  pub host : Host
  pub found : get nid b.hosts ≡ ok host
  pub allowed : IsAllowed b.settings b.token need host

-- What a touch needs. `Passed` says of a command that the guardrails pass it.
abbrev pub MayTouch : Bench → (String → Type 0) → Touch → Type 0
MayTouch b Passed (typed nid command) = MayUse b "fleet.exec" nid × Passed command
MayTouch b Passed (requested nid path) = MayUse b "fleet.admin" nid
MayTouch b Passed (rows_read nid rows) = MayUse b "fleet.read" nid
MayTouch b Passed (noted tool) = Unit

use_of :
    (b : Bench) (need nid : String) (h : Host)
    → resolve b.settings b.token b.hosts nid need ≡ ok h
    → MayUse b need nid
use_of b need nid h e =
    let (found, allowed) = resolve-IsAllowed b.settings b.token b.hosts nid need h e in
    record { host = h; found = found; allowed = allowed }

module _ (b : Bench) (Passed : String → Type 0) where
  answered-may :
      (o : Outcome) (g : Gateway) (touches : List Touch)
      → All (MayTouch b Passed) touches
      → All (MayTouch b Passed) (answered o g touches).2
  answered-may (replied r) g [] a = (tt, tt)
  answered-may (replied r) g (t ∷ touches) a = (a.0, answered-may (replied r) g touches a.1)
  answered-may is_closed g touches a = a
  answered-may timed_out g touches a = a
  answered-may exited_early g touches a = a

  one_of-may :
      (first : Bool) (d e : Handled Reply)
      → All (MayTouch b Passed) d.2
      → All (MayTouch b Passed) e.2
      → All (MayTouch b Passed) (if first then d else e).2
  one_of-may true d e f g = f
  one_of-may false d e f g = g

  replied_with-may :
      (t : Tunnel) (path : String) (o : Option (ℕ × List (List ℕ))) (g : Gateway)
      → MayUse b "fleet.admin" t.node_id
      → All (MayTouch b Passed) (replied_with b t path o g).2
  replied_with-may t path none g m = (m, tt)
  replied_with-may t path (some (status, chunks)) g m = (m, (tt, tt))

  http_allowed-may :
      (path : String) (far : ℕ → String → Option (ℕ × List (List ℕ))) (t : Tunnel)
      (r : Result ToolError Host) (g : Gateway)
      → r ≡ resolve b.settings b.token b.hosts t.node_id "fleet.admin"
      → All (MayTouch b Passed) (http_allowed b path far t r g).2
  http_allowed-may path far t (err e) g same = tt
  http_allowed-may path far t (ok h) g same =
      replied_with-may t path (far t.local_port (url_path path)) g
        (use_of b "fleet.admin" t.node_id h (sym same))

  http_found-may :
      (path : String) (far : ℕ → String → Option (ℕ × List (List ℕ)))
      (r : Result HolderError Tunnel) (g : Gateway)
      → All (MayTouch b Passed) (http_found b path far r g).2
  http_found-may path far (err e) g = tt
  http_found-may path far (ok t) g =
      http_allowed-may path far t (resolve b.settings b.token b.hosts t.node_id "fleet.admin") g
        refl

  http_required-may :
      (id path : String) (far : ℕ → String → Option (ℕ × List (List ℕ)))
      (r : Result ToolError (Unit {0})) (g : Gateway)
      → All (MayTouch b Passed) (http_required b id path far r g).2
  http_required-may id path far (err e) g = tt
  http_required-may id path far (ok u) g = http_found-may path far (get_tunnel id g) g

  rows_of-may :
      (since limit : ℕ) (s : Subscription) (r : Result ToolError Host) (g : Gateway)
      → r ≡ resolve b.settings b.token b.hosts s.node_id "fleet.read"
      → All (MayTouch b Passed) (rows_of since limit s r g).2
  rows_of-may since limit s (err e) g same = tt
  rows_of-may since limit s (ok h) g same = (use_of b "fleet.read" s.node_id h (sym same), tt)

  read_found-may :
      (since limit : ℕ) (r : Result HolderError Subscription) (g : Gateway)
      → All (MayTouch b Passed) (read_found b since limit r g).2
  read_found-may since limit (err e) g = tt
  read_found-may since limit (ok s) g =
      rows_of-may since limit s (resolve b.settings b.token b.hosts s.node_id "fleet.read") g refl

-- The guardrails pass the command, confirmed or not as the call says.
abbrev pub IsPassed : Bench → Bool → String → Type 0
IsPassed b confirm command =
    (warnings : List String) × (check_command b.search command confirm b.settings.enable_guardrails
      ≡ ok warnings)

module _ (b : Bench) (now : ℕ) (call : RunCall) (sh : Shell) where
  run_in-may :
      (s : Session) (g : Gateway)
      → MayUse b "fleet.exec" s.node_id
      → IsPassed b call.confirm call.command
      → All (MayTouch b (IsPassed b call.confirm)) (run_in b now call sh s g).2
  run_in-may s g m p =
      let ran = run b.decode sh.marker b.limits.max_output_bytes s.closed sh.reads in
      let after = with_session call.session_id (record s { last_used = now; closed = ran.1 }) g in
      one_of-may b (IsPassed b call.confirm) s.closed (answered ran.0 g [])
        (answered ran.0 after (typed s.node_id call.command ∷ []))
        (answered-may b (IsPassed b call.confirm) ran.0 g [] tt)
        (answered-may b (IsPassed b call.confirm) ran.0 after (typed s.node_id call.command ∷ [])
          ((m, p), tt))

  run_checked-may :
      (s : Session) (r : Result PolicyError (List String)) (g : Gateway)
      → MayUse b "fleet.exec" s.node_id
      → r ≡ check_command b.search call.command call.confirm b.settings.enable_guardrails
      → All (MayTouch b (IsPassed b call.confirm)) (run_checked b now call sh s r g).2
  run_checked-may s (err e) g m same = tt
  run_checked-may s (ok warnings) g m same = run_in-may s g m (warnings, sym same)

  run_allowed-may :
      (s : Session) (r : Result ToolError Host) (g : Gateway)
      → r ≡ resolve b.settings b.token b.hosts s.node_id "fleet.exec"
      → All (MayTouch b (IsPassed b call.confirm)) (run_allowed b now call sh s r g).2
  run_allowed-may s (err e) g same = tt
  run_allowed-may s (ok h) g same =
      run_checked-may s
        (check_command b.search call.command call.confirm b.settings.enable_guardrails) g
        (use_of b "fleet.exec" s.node_id h (sym same)) refl

  run_found-may :
      (r : Result HolderError Session) (g : Gateway)
      → All (MayTouch b (IsPassed b call.confirm)) (run_found b now call sh r g).2
  run_found-may (err e) g = tt
  run_found-may (ok s) g =
      run_allowed-may s (resolve b.settings b.token b.hosts s.node_id "fleet.exec") g refl

-- The id of a shell, a log or a tunnel is no capability: a command is typed into a shell, rows of a log are handed
-- out and a request is sent through a tunnel only if the token, the node's host and the gateway's mode allow it now,
-- whoever opened it; and a command only if the guardrails pass it.
pub handles-MayTouch :
    (b : Bench) (now : ℕ) (call : RunCall) (sh : Shell) (log_id tunnel_id path : String)
    (since limit : ℕ) (far : ℕ → String → Option (ℕ × List (List ℕ))) (g : Gateway)
    → All (MayTouch b (IsPassed b call.confirm)) (shell_run b now call sh g).2
      × All (MayTouch b (IsPassed b call.confirm)) (log_read b log_id since limit g).2
      × All (MayTouch b (IsPassed b call.confirm)) (tunnel_http b tunnel_id path far g).2
unfolding shell_run log_read tunnel_http
handles-MayTouch b now call sh log_id tunnel_id path since limit far g = (
  run_found-may b now call sh (get_session call.session_id g) g,
  read_found-may b (IsPassed b call.confirm) since limit (get_log log_id g) g,
  http_required-may b (IsPassed b call.confirm) tunnel_id path far (require b.token "fleet.admin")
      g,
)
