-- ===== src/Memory.antt =====
-- The memory controller's files, sakai/src/cgroup/v2/memory. Its other files are scalars.
pub mod BytesField
pub mod PagesField
pub mod CountsField
pub mod Events
pub mod Stat
pub mod NumaStat
pub mod Readers
pub mod SwapReaders
pub mod ZswapReaders
