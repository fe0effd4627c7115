-- ===== src/Tools/Core.antt =====
-- `exec` and `exec_many` of src/vpsmcp/tools/core.py. The hosts of `exec_many` run one after the other.
pub mod Guarded
use letkite_lite.Prelude.{
  ℕ, suc, ◌/◌, Bool, true, false, not, ◌&&◌, String, ◌==◌, Option, none, some, List, [], ◌∷◌, ◌++◌,
  length, map, keep, ltb, eqb, if◌then◌else◌, Result, ok, err,
}
use letkite_lite.Dict.{put_all}
use letkite_lite.Settings.{Settings}
use letkite_lite.Inventory.Host.{Host}
use letkite_lite.Policy.{PolicyError, check_command}
use letkite_lite.Runtime.{ToolError, resolve, resolve_many, clamp_timeout}
use letkite_lite.Ssh.Pool.{Pool, SshError, acquire}
use letkite_lite.Ssh.Runner.{
  Process, ExecResult, ExitCode, exited, minus_one, run_command, build_script,
}
use letkite_lite.Tools.{
  Bench, Failure, tool, no_sudo, fan_out, bad_command, connection, raised, Action, ran, noted, Done,
  conn, or_option,
}

pub record ExecCall : Type 0 where
  pub host : String
  pub command : String
  pub cwd : Option String
  pub env : List (String × String)
  pub sudo : Bool
  pub confirm : Bool

pub record ExecReply : Type 0 where
  pub alias : String
  pub result : ExecResult
  pub warnings : List String

-- The command line that the host gets: {**h.env, **env} and `cwd or h.workdir`.
abbrev pub line_for : ExecCall → Host → String
line_for call h =
    build_script call.command (or_option call.cwd h.workdir) (put_all call.env h.env) call.sudo true

abbrev exec_ran : Bench → ExecCall → Host → List String → Option Process → Pool → Done ExecReply
exec_ran b call h warnings none pool = (err raised, pool, ran h (line_for call h) ∷ [])
exec_ran b call h warnings (some p) pool = (
  ok record {
    alias = h.alias;
    result = run_command b.decode b.limits.max_output_bytes p;
    warnings = warnings;
  },
  pool,
  ran h (line_for call h) ∷ noted "exec" ∷ [],
)

abbrev exec_conn : Bench → ExecCall → Host → List String → Result SshError ℕ × Pool → Done ExecReply
exec_conn b call h warnings (err e, pool) = (err (connection e), pool, [])
exec_conn b call h warnings (ok c, pool) =
    exec_ran b call h warnings (b.process c (line_for call h)) pool

abbrev exec_checked :
    Bench → ExecCall → ℕ → Host → Result PolicyError (List String) → Pool → Done ExecReply
exec_checked b call now h (err e) pool = (err (bad_command e), pool, [])
exec_checked b call now h (ok warnings) pool = exec_conn b call h warnings (conn b now h pool)

abbrev exec_on : Bench → ExecCall → ℕ → Result ToolError Host → Pool → Done ExecReply
exec_on b call now (err e) pool = (err (tool e), pool, [])
exec_on b call now (ok h) pool =
    if call.sudo && not h.sudo
    then (err (no_sudo h.alias), pool, [])
    else exec_checked b call now h
        (check_command b.search call.command call.confirm b.settings.enable_guardrails) pool

unfoldable pub exec : Bench → ExecCall → ℕ → Pool → Done ExecReply
unfolding resolve check_command acquire run_command build_script put_all
exec b call now pool =
    exec_on b call now (resolve b.settings b.token b.hosts call.host "fleet.exec") pool

pub record ManyCall : Type 0 where
  pub command : String
  pub hosts : List String
  pub tags : List String
  pub confirm : Bool

pub data HostReply : Type 0 where
  replied : String → ExecResult → HostReply
  failed_on : String → HostReply

abbrev pub many_line : ManyCall → Host → String
many_line call h = build_script call.command h.workdir h.env false true

abbrev one_ran : Bench → ManyCall → Host → Option Process → Pool → HostReply × Pool × List Action
one_ran b call h none pool = (failed_on h.alias, pool, ran h (many_line call h) ∷ [])
one_ran b call h (some p) pool = (
  replied h.alias (run_command b.decode (b.limits.max_output_bytes / 2) p),
  pool,
  ran h (many_line call h) ∷ [],
)

-- `one`: what goes wrong is reported for the host, and the others go on.
abbrev one : Bench → ManyCall → Host → Result SshError ℕ × Pool → HostReply × Pool × List Action
one b call h (err e, pool) = (failed_on h.alias, pool, [])
one b call h (ok c, pool) = one_ran b call h (b.process c (many_line call h)) pool

unfoldable pub each : Bench → ManyCall → ℕ → List Host → Pool → List HostReply × Pool × List Action
unfolding acquire run_command build_script
each b call now [] pool = ([], pool, [])
each b call now (h ∷ hs) pool =
    let (reply, after, actions) = one b call h (conn b now h pool) in
    let (replies, last, more) = each b call now hs after in (reply ∷ replies, last, actions ++ more)

abbrev with_note : List HostReply × Pool × List Action → Done (List HostReply)
with_note (replies, pool, actions) = (ok replies, pool, actions ++ noted "exec_many" ∷ [])

abbrev many_checked :
    Bench
    → ManyCall
    → ℕ
    → List Host
    → Result PolicyError (List String)
    → Pool
    → Done (List HostReply)
many_checked b call now targets (err e) pool = (err (bad_command e), pool, [])
many_checked b call now targets (ok warnings) pool = with_note (each b call now targets pool)

abbrev many_on : Bench → ManyCall → ℕ → Result ToolError (List Host) → Pool → Done (List HostReply)
many_on b call now (err e) pool = (err (tool e), pool, [])
many_on b call now (ok targets) pool =
    if ltb b.limits.max_fanout (length targets)
    then (err (fan_out b.limits.max_fanout (length targets)), pool, [])
    else many_checked b call now targets
        (check_command b.search call.command call.confirm b.settings.enable_guardrails) pool

unfoldable pub exec_many : Bench → ManyCall → ℕ → Pool → Done (List HostReply)
unfolding resolve_many check_command each
exec_many b call now pool =
    many_on b call now
      (resolve_many b.settings b.token b.hosts b.remote.sha256 b.before call.hosts call.tags
        "fleet.exec")
      pool
