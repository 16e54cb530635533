-- ===== src/Examples.antt =====
-- Runs of the definitions and theorems on files that a kernel writes.
pub mod Files
pub mod Limits
pub mod Sets
pub mod Watching
pub mod Locating
pub mod System
pub mod Devices
pub mod Bindings
pub mod Statistics
pub mod Releasing
pub mod Retaining
pub mod Publishing
pub mod Kernels
