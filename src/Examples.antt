-- ===== src/Examples.antt =====
-- The theorems at concrete tables, messages and batches.
pub mod Mdm
pub mod Checkin
pub mod Vpp
pub mod Server
pub mod Applications
pub mod Dep
pub mod Push
pub mod DepSync
pub mod Packages
pub mod Managed
pub mod Cms
