-- ===== src/Ssh.antt =====
-- src/vpsmcp/ssh: connections, sessions, tunnels, log subscriptions and command execution.
pub mod Drain
pub mod Lines
pub mod Logs
pub mod Pool
pub mod Runner
pub mod Jobs
pub mod Holders
pub mod Session
