-- ===== src/Hugetlb.antt =====
-- The HugeTLB controller, sakai/src/cgroup/v2/hugetlb.rs.
pub mod PageSize
pub mod Files
pub mod Readers
