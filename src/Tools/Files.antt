-- ===== src/Tools/Files.antt =====
-- `read_capped`, `delete_path` and the copy between hosts of src/vpsmcp/tools/files.py.
pub mod Deleting
use Prim.Native.String
use letkite_lite.Prelude.{
  ℕ, suc, ◌+◌, Bool, true, false, not, String, ◌==◌, Option, none, some, List, [], ◌∷◌, length,
  take, ltb, eqb, if◌then◌else◌, Result, ok, err,
}
use letkite_lite.Inventory.Host.{Host}
use letkite_lite.Runtime.{ToolError, resolve}
use letkite_lite.Ssh.Pool.{Pool, SshError, acquire}
use letkite_lite.Ssh.Runner.{
  Process, ExecResult, ExitCode, exited, minus_one, run_command, build_script, quote,
}
use letkite_lite.Tools.{
  Bench, Failure, tool, connection, raised, unconfirmed_delete, refusing_to_delete, delete_failed,
  source_too_large, Action, ran, noted, Done, conn,
}
use letkite_lite.Tools.Paths.{normpath, is_refused}

-- `stream` is what the source sends when it is asked for `n` bytes, at most `n` of them.
unfoldable pub read_capped : (ℕ → List ℕ) → ℕ → Result Failure (List ℕ)
read_capped stream cap =
    let bytes = stream (cap + 1) in
    if ltb cap (length bytes) then err (source_too_large cap) else ok bytes

pub record DeleteCall : Type 0 where
  pub host : String
  pub path : String
  pub recursive : Bool
  pub confirm : Bool

abbrev pub rm_command : Bool → String → String
rm_command recursive norm = String.◌++◌ "rm " (
    String.◌++◌ (if recursive then "-rf" else "-f")
      (String.◌++◌ " -- " (String.◌++◌ (quote norm) " && echo removed")))

abbrev pub rm_line : DeleteCall → String
rm_line call = build_script (rm_command call.recursive (normpath call.path)) none [] false true

abbrev is_zero : ExitCode → Bool
is_zero minus_one = false
is_zero (exited rc) = eqb rc 0

abbrev deleted : Bench → DeleteCall → Host → Option Process → Pool → Done String
deleted b call h none pool = (err raised, pool, ran h (rm_line call) ∷ [])
deleted b call h (some p) pool = (
  if is_zero (run_command b.decode 256000 p).exit_code
      then ok (normpath call.path)
      else err delete_failed,
  pool,
  ran h (rm_line call) ∷ noted "delete_path" ∷ [],
)

abbrev delete_conn : Bench → DeleteCall → Host → Result SshError ℕ × Pool → Done String
delete_conn b call h (err e, pool) = (err (connection e), pool, [])
delete_conn b call h (ok c, pool) = deleted b call h (b.process c (rm_line call)) pool

abbrev delete_on : Bench → DeleteCall → ℕ → Result ToolError Host → Pool → Done String
delete_on b call now (err e) pool = (err (tool e), pool, [])
delete_on b call now (ok h) pool = delete_conn b call h (conn b now h pool)

unfoldable pub delete_path : Bench → DeleteCall → ℕ → Pool → Done String
unfolding normpath is_refused resolve acquire run_command build_script quote
delete_path b call now pool =
    if not call.confirm
    then (err unconfirmed_delete, pool, [])
    else if is_refused (normpath call.path)
    then (err (refusing_to_delete (normpath call.path)), pool, [])
    else delete_on b call now (resolve b.settings b.token b.hosts call.host "fleet.write") pool
