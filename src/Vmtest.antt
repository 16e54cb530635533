-- ===== src/Vmtest.antt =====
-- The task that runs the live tests on several kernels, xtask/src/vmtest/.
pub mod Selection
pub mod Build
pub mod Run
pub mod Download
pub mod Image
