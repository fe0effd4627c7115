-- ===== src/Tests.antt =====
-- The theorems applied to a small server.
mod Setting
mod Grants
mod Consents
mod Machines
mod Hosts
mod Holding
mod Scripts
mod Calls
mod Enrolling
mod Proxying
mod Handling
