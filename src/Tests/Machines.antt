-- ===== src/Tests/Machines.antt =====
-- Streams, log subscriptions and the connection pool on small inputs.
use letkite_lite.Prelude.{
  ℕ, ◌+◌, true, false, String, ◌≡◌, refl, none, some, List, [], ◌∷◌, length, take, ltb, arith,
}
use letkite_lite.Inventory.Host.{Host}
use letkite_lite.Ssh.Lines.{capped_lines, split_lines}
use letkite_lite.Ssh.Lines.Law.{cut_all, stream_text, capped_lines-eq-cut_all}
use letkite_lite.Ssh.Drain.{contents}
use letkite_lite.Ssh.Logs.{LogSub, IsComplete, pump}
use letkite_lite.Ssh.Logs.Cursor.{pump-numbers}
use letkite_lite.Settings.{Settings}
use letkite_lite.Ssh.Pool.{Entry, Pool, Remote}
use letkite_lite.Ssh.Runner.{Process, exited, run_command}
use letkite_lite.Ssh.Runner.Output.{run_command-outputs}
use letkite_lite.Ssh.Holders.{Opening}
use letkite_lite.Tests.Setting.{demo}

abbrev pub chunks : List (List ℕ)
chunks = (97 ∷ 98 ∷ 99 ∷ []) ∷ (100 ∷ 10 ∷ 97 ∷ []) ∷ []

capped_lines-eq-cut_all_example :
    capped_lines 3 chunks ≡ cut_all 3 (split_lines (stream_text chunks))
capped_lines-eq-cut_all_example = capped_lines-eq-cut_all 3 chunks

-- A subscription of two rows at most, after the first of three lines was dropped.
abbrev pub sub : LogSub
sub = record {
  maxlen = 2;
  buf = (record { seq = 2; text = "b" }) ∷ (record { seq = 3; text = "c" }) ∷ [];
  seq = 3;
  dropped = 1;
  closed = false;
}

sub-IsComplete : IsComplete sub
sub-IsComplete = record {
  room = omega arith;
  bounded = omega arith;
  counted = refl;
  numbered = (refl, (refl, tt));
}

abbrev two_lines : List String
two_lines = "d" ∷ "e" ∷ []

pump-numbers_example :
    IsComplete (pump two_lines sub) × ((pump two_lines sub).seq ≡ 3 + length two_lines)
pump-numbers_example = pump-numbers two_lines sub sub-IsComplete

abbrev entry : Entry
entry = record { conn = 7; alias = "web"; created = 0; last_used = 10; pinned = 1 }

abbrev pub host : Host
host = record {
  alias = "web";
  address = "10.0.0.5";
  user = "ops";
  port = 22;
  key_file = none;
  host_key = none;
  tags = [];
  scopes = [];
  workdir = none;
  env = [];
  sudo = false;
  jump = none;
  notes = "";
  fixed_id = some "n_0123456789";
}

abbrev pub pool : Pool
pool = ("n_0123456789", entry) ∷ []

abbrev pub remote : Remote
remote = record {
  dead = λ conn. false;
  has_key = λ h. true;
  has_known_hosts = true;
  b64decode = λ s. none;
  sha256 = λ s. s;
  dial = λ h known tunnel. none;
}

abbrev pub bytes_to_text : List ℕ → String
bytes_to_text [] = "nothing"
bytes_to_text (b ∷ bs) = "something"

abbrev pub process : Process
process = record {
  stdout = chunks;
  stderr = [];
  late = false;
  exit_status = some (exited 0);
  duration_ms = 5;
}

run_command-outputs_example :
    ((run_command bytes_to_text 4 process).stdout ≡ bytes_to_text (take 4 (contents chunks)))
    × ((run_command bytes_to_text 4 process).stderr ≡ bytes_to_text (take 4 (contents [])))
    × ((run_command bytes_to_text 4 process).stdout_truncated ≡ ltb 4 (length (contents chunks)))
    × ((run_command bytes_to_text 4 process).stderr_truncated ≡ ltb 4 (length (contents [])))
    × ((run_command bytes_to_text 4 process).timed_out ≡ false)
run_command-outputs_example = run_command-outputs bytes_to_text 4 process

abbrev pub opening : Opening
opening = record { starts = true; boots = true; local_port = 4000 }

-- Every connection has died; the host answers with connection 9.
abbrev pub restarted : Remote
restarted = record remote { dead = λ conn. true; dial = λ h known tunnel. some 9 }

abbrev pub lenient : Settings
lenient = record demo { strict_host_keys = false }
