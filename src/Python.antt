-- ===== src/Python.antt =====
-- The Python bindings, sakai-python/src/: how errors, limits and waits reach Python, its handles, and
-- its readers with their snapshots and statistics. The interpreter is an argument.
pub mod Errors
pub mod Reading
pub mod Limit
pub mod Waiting
pub mod Handle
pub mod Hugetlb
pub mod Snapshots
pub mod Readers
pub mod Statistics
