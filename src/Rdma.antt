-- ===== src/Rdma.antt =====
-- The RDMA controller's files, sakai/src/cgroup/v2/rdma.rs.
pub mod Device
pub mod Files
pub mod Unlimited
pub mod RoundTrip
pub mod Readers
