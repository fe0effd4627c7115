-- ===== src/Tests/Handling.antt =====
-- The tools of shells, logs and tunnels on small inputs.
use letkite_lite.Prelude.{
  ℕ, true, false, String, ◌≡◌, refl, some, List, [], ◌∷◌, All, Option, length, take, ltb,
}
use letkite_lite.Runtime.{AccessToken}
use letkite_lite.Ssh.Drain.{nothing}
use letkite_lite.Ssh.Holders.{Gateway}
use letkite_lite.Ssh.Session.{got}
use letkite_lite.Tools.{Bench}
use letkite_lite.Tools.Handles.{RunCall, Shell, typed, requested, noted, shell_run, log_read}
use letkite_lite.Tools.Handles.Forwarding.{tunnel_http, http_body}
use letkite_lite.Tools.Handles.Allowed.{MayTouch, IsPassed, handles-MayTouch}
use letkite_lite.Tools.Handles.Body.{whole, http_body_lem}
use letkite_lite.Tests.Machines.{pool, chunks, sub}
use letkite_lite.Tests.Hosts.{web}
use letkite_lite.Tests.Calls.{bench}

-- A shell, a tunnel and a log of one node.
abbrev gateway : Gateway
gateway = record {
  pool = pool;
  sessions =
      ("s_1", record { alias = "web"; node_id = "n_0123456789"; last_used = 3; closed = false })
      ∷ [];
  tunnels =
      (
        "tun_1",
        record {
          alias = "web";
          node_id = "n_0123456789";
          remote_port = 80;
          local_port = 4000;
          created = 2;
        },
      )
      ∷ [];
  subs = ("log_1", record { alias = "web"; node_id = "n_0123456789"; log = sub }) ∷ [];
}

abbrev admin : Option AccessToken
admin = some record { subject = "ops"; client_id = "app"; scopes = "fleet.admin" ∷ [] }

-- The host grants administration.
abbrev bench_of_admin : Bench
bench_of_admin = record bench {
  token = admin;
  hosts = ("n_0123456789", record web { scopes = "fleet.admin" ∷ [] }) ∷ [];
}

abbrev run_call : RunCall
run_call = record { session_id = "s_1"; command = "uptime"; confirm = true }

abbrev shell : Shell
shell = record { marker = "c"; reads = got (97 ∷ 99 ∷ 58 ∷ 48 ∷ []) ∷ [] }

abbrev far : ℕ → String → Option (ℕ × List (List ℕ))
far port path = some (200, chunks)

handles-MayTouch_example :
    All
      (MayTouch bench_of_admin (IsPassed bench_of_admin run_call.confirm))
      (shell_run bench_of_admin 20 run_call shell gateway).2
    × All
        (MayTouch bench_of_admin (IsPassed bench_of_admin run_call.confirm))
        (log_read bench_of_admin "log_1" 0 300 gateway).2
    × All
        (MayTouch bench_of_admin (IsPassed bench_of_admin run_call.confirm))
        (tunnel_http bench_of_admin "tun_1" "stats" far gateway).2
unfolding tunnel_http letkite_lite.Dict.lookup log_read shell_run
handles-MayTouch_example =
    handles-MayTouch bench_of_admin 20 run_call shell "log_1" "tun_1" "stats" 0 300 far gateway

http_body_lem_example :
    ((http_body 4 chunks nothing).kept ≡ take 4 (whole chunks))
    × ((http_body 4 chunks nothing).truncated ≡ ltb 4 (length (whole chunks)))
http_body_lem_example = http_body_lem 4 chunks

-- The shell's command is typed, since the administrator may use the node.
typed_uptime :
    (shell_run bench_of_admin 20 run_call shell gateway).2
    ≡ typed "n_0123456789" "uptime" ∷ noted "shell_run" ∷ []
unfolding shell_run letkite_lite.Dict.lookup letkite_lite.Inventory.Lookup.get
    letkite_lite.Policy.guard
typed_uptime = refl

requested_stats :
    (tunnel_http bench_of_admin "tun_1" "stats" far gateway).2
    ≡ requested "n_0123456789" "/stats" ∷ noted "tunnel_http" ∷ []
unfolding tunnel_http letkite_lite.Policy.require_scope letkite_lite.Dict.lookup
    letkite_lite.Inventory.Lookup.get letkite_lite.Policy.guard
requested_stats = refl
