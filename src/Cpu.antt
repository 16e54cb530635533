-- ===== src/Cpu.antt =====
-- The CPU controller's files, sakai/src/cgroup/v2/cpu.
pub mod Limits
pub mod Stat
pub mod Readers
