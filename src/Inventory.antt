-- ===== src/Inventory.antt =====
-- src/vpsmcp/inventory.py: the hosts, how one is found, and how the files' items become hosts.
pub mod Host
pub mod Lookup
pub mod Load
pub mod Loaded
pub mod Found
pub mod HostKey
pub mod Files
