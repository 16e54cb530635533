-- ===== src/Io.antt =====
-- The I/O controller's files, sakai/src/cgroup/v2/io.
pub mod Device
pub mod Weights
pub mod Stat
pub mod Cost
pub mod Readers
