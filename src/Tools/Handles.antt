-- ===== src/Tools/Handles.antt =====
-- The shell tools of src/vpsmcp/tools/core.py and the log tools of ops.py, which open, use and close what holds a
-- connection. The state is the gateway; what reaches a host is a list of touches.
pub mod Forwarding
pub mod Allowed
pub mod Body
use letkite_lite.Prelude.{ℕ, ◌-◌, Bool, String, List, [], ◌∷◌, ◌++◌, if◌then◌else◌, Result, ok, err}
use letkite_lite.Dict.{put}
use letkite_lite.Inventory.Host.{Host}
use letkite_lite.Inventory.Host
use letkite_lite.Policy.{PolicyError, check_command}
use letkite_lite.Runtime.{ToolError, resolve, require}
use letkite_lite.Ssh.Logs.{Row, read}
use letkite_lite.Ssh.Session.{Read, Reply, Outcome, replied, run}
use letkite_lite.Ssh.Holders.{
  Gateway, Session, Subscription, HolderError, Opening, open_session, open_log, get_session,
  get_log, close_session, close_log,
}
use letkite_lite.Tools.{Bench}

pub data Trouble : Type 0 where
  tool : ToolError → Trouble
  holder : HolderError → Trouble
  bad_command : PolicyError → Trouble
  -- the command in the shell times out, or the shell ends
  shell_lost : Outcome → Trouble
  request_failed : Trouble

pub data Touch : Type 0 where
  -- a command is written to a shell of a node
  typed : String → String → Touch
  -- a request is sent through a tunnel to a node
  requested : String → String → Touch
  -- rows of a log of a node are handed out
  rows_read : String → List Row → Touch
  noted : String → Touch

abbrev pub Handled : Type 0 → Type 0
Handled A = Result Trouble A × Gateway × List Touch

-- The limits of the managers.
pub record Caps : Type 0 where
  pub max_per_host : ℕ
  pub max_tunnels : ℕ
  pub max_subs : ℕ
  pub buffer_lines : ℕ

abbrev opened : String → Result HolderError String × Gateway → Handled String
opened name (err e, g) = (err (holder e), g, [])
opened name (ok id, g) = (ok id, g, noted name ∷ [])

abbrev shell_open_on :
    Bench → Caps → String → ℕ → Opening → Result ToolError Host → Gateway → Handled String
shell_open_on b caps id now o (err e) g = (err (tool e), g, [])
shell_open_on b caps id now o (ok h) g =
    opened "shell_open" (open_session b.remote b.settings b.hosts caps.max_per_host id now h o g)

unfoldable pub shell_open : Bench → Caps → String → String → ℕ → Opening → Gateway → Handled String
unfolding resolve open_session
shell_open b caps key id now o g =
    shell_open_on b caps id now o (resolve b.settings b.token b.hosts key "fleet.exec") g

pub record RunCall : Type 0 where
  pub session_id : String
  pub command : String
  pub confirm : Bool

-- What the shell does: the marker of this command, and what its output stream's reads meet.
pub record Shell : Type 0 where
  pub marker : String
  pub reads : List Read

abbrev with_session : String → Session → Gateway → Gateway
with_session id s g = record g { sessions = put id s g.sessions }

abbrev answered : Outcome → Gateway → List Touch → Handled Reply
answered (replied r) g touches = (ok r, g, touches ++ noted "shell_run" ∷ [])
answered o g touches = (err (shell_lost o), g, touches)

-- `ShellSession.run`: what is written, and the session after it.
abbrev run_in : Bench → ℕ → RunCall → Shell → Session → Gateway → Handled Reply
run_in b now call sh s g =
    let (outcome, closed) = run b.decode sh.marker b.limits.max_output_bytes s.closed sh.reads in
    if s.closed
    then answered outcome g []
    else answered outcome
        (with_session call.session_id (record s { last_used = now; closed = closed }) g)
        (typed s.node_id call.command ∷ [])

abbrev run_checked :
    Bench
    → ℕ
    → RunCall
    → Shell
    → Session
    → Result PolicyError (List String)
    → Gateway
    → Handled Reply
run_checked b now call sh s (err e) g = (err (bad_command e), g, [])
run_checked b now call sh s (ok warnings) g = run_in b now call sh s g

abbrev run_allowed :
    Bench → ℕ → RunCall → Shell → Session → Result ToolError Host → Gateway → Handled Reply
run_allowed b now call sh s (err e) g = (err (tool e), g, [])
run_allowed b now call sh s (ok h) g =
    run_checked b now call sh s
      (check_command b.search call.command call.confirm b.settings.enable_guardrails) g

abbrev run_found :
    Bench → ℕ → RunCall → Shell → Result HolderError Session → Gateway → Handled Reply
run_found b now call sh (err e) g = (err (holder e), g, [])
run_found b now call sh (ok s) g =
    run_allowed b now call sh s (resolve b.settings b.token b.hosts s.node_id "fleet.exec") g

unfoldable pub shell_run : Bench → ℕ → RunCall → Shell → Gateway → Handled Reply
unfolding get_session resolve check_command run
shell_run b now call sh g = run_found b now call sh (get_session call.session_id g) g

abbrev closed_by :
    String → (Gateway → Gateway) → Result ToolError (Unit {0}) → Gateway → Handled (Unit {0})
closed_by name close (err e) g = (err (tool e), g, [])
closed_by name close (ok u) g = (ok u, close g, noted name ∷ [])

unfoldable pub shell_close : Bench → String → Gateway → Handled (Unit {0})
unfolding require close_session
shell_close b id g = closed_by "shell_close" (close_session id) (require b.token "fleet.exec") g

abbrev log_open_on :
    Bench
    → Caps
    → String
    → ℕ
    → String
    → String
    → Opening
    → Result ToolError Host
    → Gateway
    → Handled String
log_open_on b caps id now path unit o (err e) g = (err (tool e), g, [])
log_open_on b caps id now path unit o (ok h) g =
    opened "log_open"
      (open_log b.remote b.settings b.hosts caps.max_subs caps.buffer_lines id now h path unit o g)

unfoldable pub log_open :
    Bench → Caps → String → String → ℕ → String → String → Opening → Gateway → Handled String
unfolding resolve open_log
log_open b caps key id now path unit o g =
    log_open_on b caps id now path unit o (resolve b.settings b.token b.hosts key "fleet.read") g

abbrev rows_of : ℕ → ℕ → Subscription → Result ToolError Host → Gateway → Handled (List Row × ℕ)
rows_of since limit s (err e) g = (err (tool e), g, [])
rows_of since limit s (ok h) g =
    let (rows, next) = read s.log since limit in (ok (rows, next), g, rows_read s.node_id rows ∷ [])

abbrev read_found :
    Bench → ℕ → ℕ → Result HolderError Subscription → Gateway → Handled (List Row × ℕ)
read_found b since limit (err e) g = (err (holder e), g, [])
read_found b since limit (ok s) g =
    rows_of since limit s (resolve b.settings b.token b.hosts s.node_id "fleet.read") g

unfoldable pub log_read : Bench → String → ℕ → ℕ → Gateway → Handled (List Row × ℕ)
unfolding get_log resolve read
log_read b id since limit g = read_found b since limit (get_log id g) g

unfoldable pub log_close : Bench → String → Gateway → Handled (Unit {0})
unfolding require close_log
log_close b id g = closed_by "log_close" (close_log id) (require b.token "fleet.read") g
