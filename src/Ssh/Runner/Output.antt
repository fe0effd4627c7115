-- ===== src/Ssh/Runner/Output.antt =====
-- What `run_command` of src/vpsmcp/ssh/runner.py reports.
use letkite_lite.Prelude.{ℕ, String, ◌≡◌, refl, ap, List, length, take, ltb}
use letkite_lite.Ssh.Drain.{contents, drain-nothing}
use letkite_lite.Ssh.Runner.{Process, run_command}

-- Both outputs are the first `max_bytes` bytes of what the streams carried, each flag is set exactly if
-- there was more, and a call is reported as timed out exactly if it was late.
pub run_command-outputs :
    (decode : List ℕ → String) (max_bytes : ℕ) (p : Process)
    → ((run_command decode max_bytes p).stdout ≡ decode (take max_bytes (contents p.stdout)))
      × ((run_command decode max_bytes p).stderr ≡ decode (take max_bytes (contents p.stderr)))
      × ((run_command decode max_bytes p).stdout_truncated
          ≡ ltb max_bytes (length (contents p.stdout)))
      × ((run_command decode max_bytes p).stderr_truncated
          ≡ ltb max_bytes (length (contents p.stderr)))
      × ((run_command decode max_bytes p).timed_out ≡ p.late)
unfolding run_command
run_command-outputs decode max_bytes p =
    let out = drain-nothing max_bytes p.stdout in
    let err = drain-nothing max_bytes p.stderr in
    (ap decode out.0, ap decode err.0, out.1, err.1, refl)
