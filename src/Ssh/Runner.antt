-- ===== src/Ssh/Runner.antt =====
-- `build_script`, `run_command` and `ExecResult` of src/vpsmcp/ssh/runner.py. A process is what its
-- streams carry until they end or the time is up, and its exit status.
pub mod Output
pub mod Quoting
use Prim.Native.String
use Prim.Native.String.{[], ◌∷◌}
use Prim.Native.Char.{Char, code}
use mathlib.Core.List
use letkite_lite.Prelude.{
  ℕ, Bool, true, false, ◌&&◌, ◌||◌, String, ◌==◌, Option, none, some, List, eqb, leb, if◌then◌else◌,
}
use letkite_lite.Inventory.Host.{is_alnum}
use letkite_lite.Ssh.Drain.{Sink, drain, nothing}

-- shlex.quote: the characters that need no quotes are ASCII \w and @%+=:,./-
abbrev is_safe : ℕ → Bool
is_safe c =
    is_alnum c
    || eqb c b'_'
    || eqb c b'@'
    || eqb c b'%'
    || eqb c b'+'
    || eqb c b'='
    || eqb c b':'
    || eqb c b','
    || eqb c b'.'
    || eqb c b'/'
    || eqb c b'-'

abbrev all_safe : String → Bool
all_safe [] = true
all_safe (c ∷ s) = is_safe (code c) && all_safe s

-- s.replace("'", "'\"'\"'")
abbrev escape_quotes : String → String
escape_quotes [] = []
escape_quotes (c ∷ s) =
    let rest = escape_quotes s in if eqb (code c) 39 then String.◌++◌ "'\"'\"'" rest else c ∷ rest

unfoldable pub quote : String → String
quote s =
    if s == ""
    then "''"
    else if all_safe s
    then s
    else String.◌++◌ "'" (String.◌++◌ (escape_quotes s) "'")

-- "\n".join(parts)
abbrev join_lines : List String → String
join_lines List.[] = ""
join_lines (List.◌∷◌ p List.[]) = p
join_lines (List.◌∷◌ p (List.◌∷◌ q ps)) =
    String.◌++◌ p (String.◌++◌ "\n" (join_lines (List.◌∷◌ q ps)))

abbrev pub export_line : String → String → String
export_line k v = String.◌++◌ "export " (String.◌++◌ (quote k) (String.◌++◌ "=" (quote v)))

abbrev exports : List (String × String) → List String → List String
exports List.[] parts = parts
exports (List.◌∷◌ (k, v) env) parts = List.◌∷◌ (export_line k v) (exports env parts)

abbrev change_dir : Option String → List String → List String
change_dir none parts = parts
change_dir (some dir) parts =
    if dir == ""
    then parts
    else List.◌∷◌
        (String.◌++◌ "cd "
          (String.◌++◌ (quote dir) " || { echo 'vpsmcp: no such cwd' >&2; exit 97; }"))
        parts

unfoldable pub build_script : String → Option String → List (String × String) → Bool → Bool → String
unfolding quote
build_script command cwd env sudo login_shell =
    let parts =
      List.◌∷◌ "set -o pipefail 2>/dev/null || true"
        (exports env (change_dir cwd (List.◌∷◌ command List.[]))) in
    let flag = if login_shell then "-lc" else "-c" in
    let inner =
      String.◌++◌ "bash " (String.◌++◌ flag (String.◌++◌ " " (quote (join_lines parts)))) in
    if sudo then String.◌++◌ "sudo -n -H " inner else inner

-- A status, or the -1 that stands for none.
pub data ExitCode : Type 0 where
  exited : ℕ → ExitCode
  minus_one : ExitCode

pub record Process : Type 0 where
  -- the chunks that are read before the time is up
  pub stdout : List (List ℕ)
  pub stderr : List (List ℕ)
  -- the streams do not end in time, or the process is not closed ten seconds after
  pub late : Bool
  pub exit_status : Option ExitCode
  pub duration_ms : ℕ

pub record ExecResult : Type 0 where
  pub exit_code : ExitCode
  pub stdout : String
  pub stderr : String
  pub stdout_truncated : Bool
  pub stderr_truncated : Bool
  pub duration_ms : ℕ
  pub timed_out : Bool

abbrev exit_code_of : Bool → Option ExitCode → ExitCode
exit_code_of late (some rc) = rc
exit_code_of late none = if late then exited 124 else minus_one

-- `decode` is bytes.decode("utf-8", "replace").
unfoldable pub run_command : (List ℕ → String) → ℕ → Process → ExecResult
run_command decode max_bytes p =
    let out = drain max_bytes p.stdout nothing in
    let err = drain max_bytes p.stderr nothing in
    record {
      exit_code = exit_code_of p.late p.exit_status;
      stdout = decode out.kept;
      stderr = decode err.kept;
      stdout_truncated = out.truncated;
      stderr_truncated = err.truncated;
      duration_ms = p.duration_ms;
      timed_out = p.late;
    }
