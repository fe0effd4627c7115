-- ===== src/Tools/Core/Guarded.antt =====
-- What has to hold before `exec` and `exec_many` of src/vpsmcp/tools/core.py start a command on a host.
use letkite_lite.Prelude.{
  ℕ, true, false, not, ◌&&◌, String, ◌≡◌, refl, sym, Option, none, some, List, [], ◌∷◌, length, ltb,
  Result, ok, err, All, All-append, Bool-cases, inl, inr,
}
use letkite_lite.Dict.{put_all}
use letkite_lite.Inventory.Host.{Host}
use letkite_lite.Inventory.Lookup.{get}
use letkite_lite.Policy.{PolicyError, check_command}
use letkite_lite.Runtime.{ToolError, resolve}
use letkite_lite.Runtime.Resolve.{IsAllowed, resolve-IsAllowed, resolve_many-IsAllowed}
use letkite_lite.Ssh.Pool.{Pool, SshError}
use letkite_lite.Ssh.Runner.{Process}
use letkite_lite.Ssh.Runner.Quoting.{words}
use letkite_lite.Ssh.Runner.Quoting.Scripts.{build_script-words, shell_words, script_of}
use letkite_lite.Tools.{Bench, Action, ran, noted, conn, or_option}
use letkite_lite.Tools.Core.{
  ExecCall, exec, exec_on, exec_checked, exec_conn, exec_ran, line_for, ManyCall, exec_many,
  many_on, many_checked, each, one, one_ran, many_line,
}

-- What a command that `exec` starts needs, and how the host's shell reads its line.
pub record IsPermitted (b : Bench) (call : ExecCall) (h : Host) (line : String) : Type 0 where
  pub found : get call.host b.hosts ≡ ok h
  pub allowed : IsAllowed b.settings b.token "fleet.exec" h
  pub sudo_allowed : call.sudo && not h.sudo ≡ false
  pub warnings : List String
  pub passed :
      check_command b.search call.command call.confirm b.settings.enable_guardrails ≡ ok warnings
  pub read_as :
      words line
      ≡ some (
          shell_words call.sudo true
            (script_of call.command (or_option call.cwd h.workdir) (put_all call.env h.env)))

abbrev pub MayRun : (Host → String → Type 0) → Action → Type 0
MayRun P (ran h line) = P h line
MayRun P (noted tool) = Unit

module _ (b : Bench) (call : ExecCall) where
  exec_ran-may :
      (P : Host → String → Type 0) (h : Host) (warnings : List String) (o : Option Process)
      (pool : Pool)
      → P h (line_for call h)
      → All (MayRun P) (exec_ran b call h warnings o pool).2
  exec_ran-may P h warnings none pool p = (p, tt)
  exec_ran-may P h warnings (some q) pool p = (p, (tt, tt))

  exec_conn-may :
      (P : Host → String → Type 0) (h : Host) (warnings : List String)
      (r : Result SshError ℕ × Pool)
      → P h (line_for call h)
      → All (MayRun P) (exec_conn b call h warnings r).2
  exec_conn-may P h warnings (err e, pool) p = tt
  exec_conn-may P h warnings (ok c, pool) p =
      exec_ran-may P h warnings (b.process c (line_for call h)) pool p

  exec_checked-may :
      (P : Host → String → Type 0) (now : ℕ) (h : Host) (r : Result PolicyError (List String))
      (pool : Pool)
      → ((warnings : List String) → r ≡ ok warnings → P h (line_for call h))
      → All (MayRun P) (exec_checked b call now h r pool).2
  exec_checked-may P now h (err e) pool p = tt
  exec_checked-may P now h (ok warnings) pool p =
      exec_conn-may P h warnings (conn b now h pool) (p warnings refl)

  exec_on-may :
      (now : ℕ) (r : Result ToolError Host) (pool : Pool)
      → r ≡ resolve b.settings b.token b.hosts call.host "fleet.exec"
      → All (MayRun (IsPermitted b call)) (exec_on b call now r pool).2
  exec_on-may now (err e) pool same = tt
  exec_on-may now (ok h) pool same = elim (Bool-cases (call.sudo && not h.sudo)) [
    | inl stops ↦ rw stops tt
    | inr free ↦
        let (found, allowed) =
          resolve-IsAllowed b.settings b.token b.hosts call.host "fleet.exec" h (sym same) in
        rw free (
          exec_checked-may (IsPermitted b call) now h
            (check_command b.search call.command call.confirm b.settings.enable_guardrails) pool
            (λ warnings passed. record {
              found = found;
              allowed = allowed;
              sudo_allowed = free;
              warnings = warnings;
              passed = passed;
              read_as =
                  build_script-words call.command (or_option call.cwd h.workdir)
                    (put_all call.env h.env) call.sudo true;
            }))
  ]

  -- `exec` starts a command only on the host that the inventory finds for the key, which the token, the host's scopes
  -- and the gateway's mode allow; with sudo only where the host allows it; and only a command that the guardrails pass.
  -- The host's shell reads the line as the script of that command, its directory and its environment, and nothing else.
  pub exec-IsPermitted :
      (now : ℕ) (pool : Pool) → All (MayRun (IsPermitted b call)) (exec b call now pool).2
  unfolding exec
  exec-IsPermitted now pool =
      exec_on-may now (resolve b.settings b.token b.hosts call.host "fleet.exec") pool refl

-- What a command that `exec_many` starts needs.
pub record IsPermittedIn (b : Bench) (call : ManyCall) (h : Host) (line : String) : Type 0 where
  pub allowed : IsAllowed b.settings b.token "fleet.exec" h
  pub warnings : List String
  pub passed :
      check_command b.search call.command call.confirm b.settings.enable_guardrails ≡ ok warnings
  pub read_as : words line ≡ some (shell_words false true (script_of call.command h.workdir h.env))

module _ (b : Bench) (call : ManyCall) where
  one_ran-may :
      (P : Host → String → Type 0) (h : Host) (o : Option Process) (pool : Pool)
      → P h (many_line call h)
      → All (MayRun P) (one_ran b call h o pool).2
  one_ran-may P h none pool p = (p, tt)
  one_ran-may P h (some q) pool p = (p, tt)

  one-may :
      (P : Host → String → Type 0) (h : Host) (r : Result SshError ℕ × Pool)
      → P h (many_line call h)
      → All (MayRun P) (one b call h r).2
  one-may P h (err e, pool) p = tt
  one-may P h (ok c, pool) p = one_ran-may P h (b.process c (many_line call h)) pool p

  each-may :
      (P : Host → String → Type 0) (now : ℕ) (hs : List Host) (pool : Pool)
      → All (λ h. P h (many_line call h)) hs
      → All (MayRun P) (each b call now hs pool).2
  unfolding each
  each-may P now [] pool a = tt
  each-may P now (h ∷ hs) pool a =
      let here = one b call h (conn b now h pool) in
      All-append (MayRun P) here.2 (each b call now hs here.1).2
        (one-may P h (conn b now h pool) a.0) (each-may P now hs here.1 a.1)

  many_checked-may :
      (P : Host → String → Type 0) (now : ℕ) (hs : List Host) (r : Result PolicyError (List String))
      (pool : Pool)
      → ((warnings : List String) → r ≡ ok warnings → All (λ h. P h (many_line call h)) hs)
      → All (MayRun P) (many_checked b call now hs r pool).2
  many_checked-may P now hs (err e) pool a = tt
  many_checked-may P now hs (ok warnings) pool a =
      All-append (MayRun P) (each b call now hs pool).2 (noted "exec_many" ∷ [])
        (each-may P now hs pool (a warnings refl)) (tt, tt)

  allowed-IsPermittedIn :
      (hs : List Host) (warnings : List String)
      → All (IsAllowed b.settings b.token "fleet.exec") hs
      → check_command b.search call.command call.confirm b.settings.enable_guardrails ≡ ok warnings
      → All (λ h. IsPermittedIn b call h (many_line call h)) hs
  allowed-IsPermittedIn [] warnings a passed = tt
  allowed-IsPermittedIn (h ∷ hs) warnings a passed = (
    record {
      allowed = a.0;
      warnings = warnings;
      passed = passed;
      read_as = build_script-words call.command h.workdir h.env false true;
    },
    allowed-IsPermittedIn hs warnings a.1 passed,
  )

  many_on-may :
      (now : ℕ) (r : Result ToolError (List Host)) (pool : Pool)
      → ((hs : List Host) → r ≡ ok hs → All (IsAllowed b.settings b.token "fleet.exec") hs)
      → All (MayRun (IsPermittedIn b call)) (many_on b call now r pool).2
  many_on-may now (err e) pool a = tt
  many_on-may now (ok hs) pool a = elim (Bool-cases (ltb b.limits.max_fanout (length hs))) [
    | inl many ↦ rw many tt
    | inr fits ↦ rw fits (
        many_checked-may (IsPermittedIn b call) now hs
          (check_command b.search call.command call.confirm b.settings.enable_guardrails) pool
          (λ warnings passed. allowed-IsPermittedIn hs warnings (a hs refl) passed))
  ]

  -- Each host on which `exec_many` starts a command is one that the token, its own scopes and the gateway's mode allow,
  -- the guardrails have passed the command, and the host's shell reads the line as the script of that command.
  pub exec_many-IsPermittedIn :
      (now : ℕ) (pool : Pool) → All (MayRun (IsPermittedIn b call)) (exec_many b call now pool).2
  unfolding exec_many
  exec_many-IsPermittedIn now pool = many_on-may now _ pool (λ hs e.
      resolve_many-IsAllowed b.settings b.token b.hosts b.remote.sha256 b.before call.hosts
        call.tags "fleet.exec" hs e)
