-- ===== src/Distribution.antt =====
-- pkg/pack/distribution: what packs a project gets.
pub mod Versions
pub mod Reference
pub mod Tree
pub mod Lockfile
pub mod Verify
pub mod Install
pub mod Project
pub mod Remove
pub mod Config
pub mod Tamper
pub mod Identity
pub mod Services
pub mod Relock
pub mod Update
pub mod Add
pub mod Upgrade
