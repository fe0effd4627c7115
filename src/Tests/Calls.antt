-- ===== src/Tests/Calls.antt =====
-- The tools on small inputs.
use letkite_lite.Prelude.{
  true, false, String, ◌≡◌, refl, some, none, List, [], ◌∷◌, All, Option, length,
}
use letkite_lite.Runtime.{AccessToken}
use letkite_lite.Tools.{Bench, Limits}
use letkite_lite.Tools.Core.{ExecCall, ManyCall, exec, exec_many}
use letkite_lite.Tools.Core.Guarded.{
  MayRun, IsPermitted, IsPermittedIn, exec-IsPermitted, exec_many-IsPermittedIn,
}
use letkite_lite.Tools.Paths.{normpath, is_refused}
use letkite_lite.Tools.Files.{DeleteCall, delete_path}
use letkite_lite.Tools.Files.Deleting.{IsDeletable, delete_path-IsDeletable}
use letkite_lite.Tests.Machines.{pool, restarted, lenient, bytes_to_text, process}
use letkite_lite.Tests.Hosts.{hosts, found}

abbrev writer : Option AccessToken
writer =
    some record { subject = "ops"; client_id = "app"; scopes = "fleet.exec" ∷ "fleet.write" ∷ [] }

abbrev limits : Limits
limits = record { max_output_bytes = 32000; max_fanout = 8; max_file_bytes = 4000000 }

abbrev pub bench : Bench
bench = record {
  settings = record lenient { read_only = false };
  limits = limits;
  token = writer;
  hosts = hosts;
  remote = restarted;
  search = found;
  before = λ s t. false;
  decode = bytes_to_text;
  process = λ conn line. some process;
}

abbrev call : ExecCall
call = record {
  host = "web";
  command = "uptime";
  cwd = none;
  env = [];
  sudo = false;
  confirm = true;
}

exec-IsPermitted_example : All (MayRun (IsPermitted bench call)) (exec bench call 20 pool).2
exec-IsPermitted_example = exec-IsPermitted bench call 20 pool

abbrev many : ManyCall
many = record { command = "uptime"; hosts = "web" ∷ []; tags = []; confirm = true }

exec_many-IsPermittedIn_example :
    All (MayRun (IsPermittedIn bench many)) (exec_many bench many 20 pool).2
exec_many-IsPermittedIn_example = exec_many-IsPermittedIn bench many 20 pool

abbrev deletion : DeleteCall
deletion = record { host = "web"; path = "/srv/app/../old's"; recursive = true; confirm = true }

delete_path-IsDeletable_example :
    All (MayRun (IsDeletable bench deletion)) (delete_path bench deletion 20 pool).2
delete_path-IsDeletable_example = delete_path-IsDeletable bench deletion 20 pool

-- Two slashes at the start are kept, and a system directory is not recognised behind them.
normpath_two_slashes : (normpath "//etc" ≡ "//etc") × (is_refused (normpath "//etc") ≡ false)
unfolding normpath letkite_lite.Prelude.Text.split_on is_refused
normpath_two_slashes = (refl, refl)

normpath_dots : (normpath "/srv/../etc/." ≡ "/etc") × (is_refused (normpath "/srv/../etc/.") ≡ true)
unfolding normpath letkite_lite.Prelude.Text.split_on is_refused
normpath_dots = (refl, refl)

runs_uptime : length (exec bench call 20 pool).2 ≡ 2
unfolding exec letkite_lite.Inventory.Lookup.get letkite_lite.Policy.guard
    letkite_lite.Inventory.Host.node_id
runs_uptime = refl

runs_many : length (exec_many bench many 20 pool).2 ≡ 2
unfolding exec_many letkite_lite.Inventory.Lookup.select letkite_lite.Inventory.Host.node_id
    letkite_lite.Policy.guard
runs_many = refl

deletes : length (delete_path bench deletion 20 pool).2 ≡ 2
unfolding delete_path letkite_lite.Prelude.Text.split_on letkite_lite.Inventory.Lookup.get
    letkite_lite.Policy.guard letkite_lite.Inventory.Host.node_id
deletes = refl
