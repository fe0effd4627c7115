-- ===== src/Tools.antt =====
-- src/vpsmcp/tools: the tools that run commands on hosts. What reaches a host, and the audit log, is a list of
-- actions in their order.
pub mod Core
pub mod Paths
pub mod Files
pub mod Handles
use letkite_lite.Prelude.{
  ℕ, suc, Bool, String, ◌==◌, Option, none, some, List, [], length, Result, ok, err, if◌then◌else◌,
}
use letkite_lite.Settings.{Settings}
use letkite_lite.Inventory.Host.{Host}
use letkite_lite.Inventory.Lookup.{Hosts}
use letkite_lite.Policy.{Rule, PolicyError}
use letkite_lite.Runtime.{AccessToken, ToolError}
use letkite_lite.Ssh.Pool.{Remote, Pool, SshError, acquire}
use letkite_lite.Ssh.Runner.{Process}

-- The limits of src/vpsmcp/settings.py that only the tools read.
pub record Limits : Type 0 where
  pub max_output_bytes : ℕ
  pub max_fanout : ℕ
  pub max_file_bytes : ℕ

-- Who calls, and what the code calls: `search` is `re.search` of a rule, `process` is what a connection does with a
-- command line, none where it raises.
pub record Bench : Type 0 where
  pub settings : Settings
  pub limits : Limits
  pub token : Option AccessToken
  pub hosts : Hosts
  pub remote : Remote
  pub search : Rule → String → Bool
  pub before : String → String → Bool
  pub decode : List ℕ → String
  pub process : ℕ → String → Option Process

pub data Failure : Type 0 where
  tool : ToolError → Failure
  no_sudo : String → Failure
  fan_out : ℕ → ℕ → Failure
  bad_command : PolicyError → Failure
  connection : SshError → Failure
  -- an exception that the tool does not catch
  raised : Failure
  unconfirmed_delete : Failure
  refusing_to_delete : String → Failure
  delete_failed : Failure
  source_too_large : ℕ → Failure

pub data Action : Type 0 where
  -- a command line is started on a host
  ran : Host → String → Action
  -- `rt.record` of a tool
  noted : String → Action

abbrev pub Done : Type 0 → Type 0
Done A = Result Failure A × Pool × List Action

-- `Runtime.conn`
abbrev pub conn : Bench → ℕ → Host → Pool → Result SshError ℕ × Pool
conn b now h pool = acquire b.remote b.settings b.hosts now (suc (suc (length b.hosts))) [] h pool

-- x or y, for a text that may be missing
abbrev pub or_option : Option String → Option String → Option String
or_option none y = y
or_option (some s) y = if s == "" then y else some s
