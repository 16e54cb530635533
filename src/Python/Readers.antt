-- ===== src/Python/Readers.antt =====
-- The methods of the readers of the bindings, sakai-python/src/linux/.
pub mod Pids
pub mod Memory
pub mod Swap
pub mod Zswap
pub mod Cpu
pub mod Core
pub mod Dmem
pub mod Misc
pub mod Rdma
pub mod Io
