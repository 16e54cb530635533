-- ===== src/Cpuset.antt =====
-- The cpuset controller's files, sakai/src/cgroup/v2/cpuset.
pub mod IdList
pub mod Partition
pub mod Readers
