-- ===== src/Enroll/Register/Probed.antt =====
-- What the probe of a registration in src/vpsmcp/enroll.py has done if it succeeds.
use letkite_lite.Prelude.{
  ℕ, suc, true, String, ◌≡◌, refl, ap, Option, none, some, [], length, Result, ok, err, arith,
}
use letkite_lite.Settings.{Settings}
use letkite_lite.Inventory.Host.{Host}
use letkite_lite.Inventory.Lookup.{InventoryError, get}
use letkite_lite.Inventory.Files.{Disk, Watcher, watch}
use letkite_lite.Ssh.Pool.{Pool, SshError, acquire}
use letkite_lite.Ssh.Runner.{Process, ExitCode, exited, minus_one, run_command}
use letkite_lite.Enroll.Register.{
  Outside, World, probe, command_ok, host_ok, watched_ok, probe_ok, is_zero,
}

-- From this directory, inventory and pool on, the gateway has found the host of that id in the inventory that it
-- reads again, connected to it, and the command on that connection has ended with 0.
pub record IsProbed (x : Outside) (c : Settings) (now : ℕ) (nid : String) (disk : Disk)
    (before : Watcher) (pool : Pool) : Type 0 where
  pub watcher : Watcher
  pub reloaded : watch x.remote.sha256 x.before disk before ≡ ok watcher
  pub host : Host
  pub found : get nid watcher.hosts ≡ ok host
  pub conn : ℕ
  pub connected :
      (acquire x.remote c watcher.hosts now (suc (suc (length watcher.hosts))) [] host pool).0
      ≡ ok conn
  pub process : Process
  pub ran : x.probe conn ≡ some process
  pub succeeded : (run_command x.decode 2048 process).exit_code ≡ exited 0

is_zero-exited : (e : ExitCode) → is_zero e ≡ true → e ≡ exited 0
is_zero-exited minus_one h = ground (arith, h)
is_zero-exited (exited rc) h = ap exited (ground (arith, h))

-- A probe that succeeds has done so.
module _ (x : Outside) (c : Settings) (now : ℕ) where
  probe_ok-zero :
      (o : Option Process)
      → probe_ok x.decode o ≡ true
      → (p : Process) × (o ≡ some p) × ((run_command x.decode 2048 p).exit_code ≡ exited 0)
  probe_ok-zero none h = ground (arith, h)
  probe_ok-zero (some p) h = (p, refl, is_zero-exited (run_command x.decode 2048 p).exit_code h)

  command_ok-ran :
      (r : Result SshError ℕ × Pool) (w : World)
      → (command_ok x r w).0 ≡ true
      → (conn : ℕ) × (r.0 ≡ ok conn)
        × ((p : Process) × (x.probe conn ≡ some p)
            × ((run_command x.decode 2048 p).exit_code ≡ exited 0))
  command_ok-ran (err e, pool) w h = ground (arith, h)
  command_ok-ran (ok conn, pool) w h = (conn, refl, probe_ok-zero (x.probe conn) h)

  host_ok-IsProbed :
      (nid : String) (r : Result InventoryError Host) (disk : Disk) (before : Watcher) (w : World)
      → watch x.remote.sha256 x.before disk before ≡ ok w.watcher
      → get nid w.watcher.hosts ≡ r
      → (host_ok x c now r w).0 ≡ true
      → IsProbed x c now nid disk before w.pool
  host_ok-IsProbed nid (err e) disk before w reloaded found h = ground (arith, h)
  host_ok-IsProbed nid (ok host) disk before w reloaded found h =
      let hosts = w.watcher.hosts in
      let (conn, connected, (p, ran, zero)) =
        command_ok-ran (acquire x.remote c hosts now (suc (suc (length hosts))) [] host w.pool) w
          h in
      record {
        watcher = w.watcher;
        reloaded = reloaded;
        host = host;
        found = found;
        conn = conn;
        connected = connected;
        process = p;
        ran = ran;
        succeeded = zero;
      }

  watched_ok-IsProbed :
      (nid : String) (r : Result InventoryError Watcher) (w : World)
      → watch x.remote.sha256 x.before w.disk w.watcher ≡ r
      → (watched_ok x c now nid r w).0 ≡ true
      → IsProbed x c now nid w.disk w.watcher w.pool
  watched_ok-IsProbed nid (err e) w reloaded h = ground (arith, h)
  watched_ok-IsProbed nid (ok watcher) w reloaded h =
      host_ok-IsProbed nid (get nid watcher.hosts) w.disk w.watcher (record w { watcher = watcher })
        reloaded refl h

  pub probe-IsProbed :
      (nid : String) (w : World)
      → (probe x c now nid w).0 ≡ true
      → IsProbed x c now nid w.disk w.watcher w.pool
  unfolding probe
  probe-IsProbed nid w h =
      watched_ok-IsProbed nid (watch x.remote.sha256 x.before w.disk w.watcher) w refl h
