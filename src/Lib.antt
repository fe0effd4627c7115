-- ===== src/Lib.antt =====
-- A model of the gateway letkite-lite (src/vpsmcp): an OAuth server whose tokens let a client run
-- commands on hosts over SSH, with theorems about its state and its checks.
--
-- A request comes in through the endpoints of the authorization server, which keep their state in
-- one SQLite file, or with an access token through a tool, which resolves a host of the
-- inventory, checks scopes and guardrails, and takes a connection of the pool. Modules:
-- - Prelude, Sql, Dict: what the model uses of Python and SQL. Lists, texts, results with errors;
--   UPDATE, DELETE, INSERT and ORDER BY on a table that is a list of rows; a dict as the list of
--   its items.
-- - Auth.Store: src/vpsmcp/auth/store.py. A record with a list of rows for each table. Each
--   method of the class is a function of the same name on that record (put_code, take_code,
--   put_refresh, take_refresh, login_failed, note_rejected_redirect and so on), in a module for
--   each table.
-- - Auth.OAuth: src/vpsmcp/auth/oauth.py. The endpoints authorize, login, register, token and
--   revoke are functions from a request and the world (the store and the audit records) to a
--   reply and the world. Scopes, Callbacks and Cookies are their checks. The library functions
--   they call are the fields of External, the random values of a request those of Fresh.
-- - Auth.History: sequences of calls of the endpoints and of the commands that change the store.
-- - Auth.Profiles, Settings, Net: src/vpsmcp/auth/clients.py, settings.py and netutil.py.
-- - Inventory: src/vpsmcp/inventory.py. Lookup.get and select, Load.load_inventory from the
--   parsed items on, HostKey.valid_host_key.
-- - Policy, Runtime: src/vpsmcp/policy.py and runtime.py. check_command, guard, resolve,
--   resolve_many.
-- - Ssh.Lines, Ssh.Logs: src/vpsmcp/ssh/logs.py. _capped_lines over the list of chunks that the
--   stream's reads return; _pump and read on the ring buffer.
-- - Ssh.Drain: _drain of src/vpsmcp/ssh/runner.py. Ssh.Runner: build_script and run_command of
--   the same file, on a process that is given by what its streams carry. Ssh.Pool:
--   src/vpsmcp/ssh/pool.py, acquire, pin, unpin and a round of the reaper.
-- - Ssh.Jobs: output and purge of src/vpsmcp/ssh/jobs.py, the script that is sent and what is
--   read in the answer. Ssh.Session: ShellSession.run of src/vpsmcp/ssh/session.py, on the list
--   of what its reads meet. Ssh.Holders: SessionManager, TunnelManager of
--   src/vpsmcp/ssh/tunnels.py and LogManager, each holder with its pin on the pool.
-- - Inventory.Files: write_host, remove_host and InventoryWatcher of src/vpsmcp/inventory.py, on
--   the directory hosts.d as the list of its files. Enroll: src/vpsmcp/enroll.py; Store is
--   EnrollStore, Gate is _gate, Register is register and deregister on a world of the store, the
--   files, the watcher, the pool and the audit records. Enroll.Admin: cmd_node of
--   src/vpsmcp/__main__.py.
-- - Proxy: src/vpsmcp/proxy.py, handle with what it calls, as the list of the names that it looks
--   up and the connections that it asks for, and its answer. Tools: exec and exec_many of
--   src/vpsmcp/tools/core.py, delete_path and read_capped of src/vpsmcp/tools/files.py; what
--   reaches a host is a list of actions. Tools.Handles: the shell tools of core.py and the log
--   and tunnel tools of src/vpsmcp/tools/ops.py, on the gateway that holds them.
-- - Ssh.Runner.Quoting: a reader of command lines by the quoting rules of a shell, made
--   independently of the code. Ssh.Logs.History: the numbered history of a stream.
--   Ssh.Holders.Pins: the steps of the gateway in any order, from the empty one.
-- - Tests: a small server, with the theorems applied to it.
--
-- Numbers are natural numbers. The clock of a request is in thousandths of a second and is read
-- once. A text is a sequence of characters; case is ASCII case, and white space that split() and
-- strip() take is ASCII's. An exception that nothing catches is a value of the reply
-- (server_error, raised). Loops are recursions on lists, except acquire, which follows jump hosts
-- and runs on fuel: each jump uses one, a chain that comes back to a node whose lock the task
-- holds ends as waits_forever, which stands for a call that never returns, and Ssh.Pool.Ending is
-- about how much fuel is enough.
--
-- Not modelled: cryptography, SSH, HTTP and the regular expressions, which are parameters;
-- concurrency between tasks; HTML pages; reading the environment and YAML; the scripts that
-- enrollment hands out; the start, the status and the killing of jobs; the listing, file and job
-- tools; set-up and the rest of the command line.
pub mod Prelude
pub mod Sql
pub mod Dict
pub mod Net
pub mod Settings
pub mod Auth
pub mod Ssh
pub mod Inventory
pub mod Policy
pub mod Runtime
pub mod Enroll
pub mod Proxy
pub mod Tools
mod Tests
