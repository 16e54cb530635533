-- ===== src/Release.antt =====
-- The release task, xtask/src/release.rs. Commands, the file system and the servers are arguments:
-- the outcome of each call that the code makes.
pub mod Version
pub mod Notes
pub mod Registry
pub mod Package
pub mod Retained
pub mod Github
