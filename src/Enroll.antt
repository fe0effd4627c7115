-- ===== src/Enroll.antt =====
-- src/vpsmcp/enroll.py: how a machine becomes a host of the inventory.
pub mod Store
pub mod Gate
pub mod Register
pub mod Admin
