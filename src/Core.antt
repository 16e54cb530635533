-- ===== src/Core.antt =====
-- The core files of a cgroup, sakai/src/cgroup/v2/core.rs, core/state.rs and core/task.rs.
pub mod Controller
pub mod State
pub mod Task
pub mod Readers
