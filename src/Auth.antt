-- ===== src/Auth.antt =====
-- src/vpsmcp/auth: the OAuth authorization server and its store.
pub mod Store
pub mod Profiles
pub mod OAuth
pub mod History
