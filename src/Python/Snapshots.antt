-- ===== src/Python/Snapshots.antt =====
-- The snapshot classes of the bindings and their `From` of those of the crate, which copy the fields.
-- A quantity wraps its value.
pub mod Pressure
pub mod Cpu
pub mod Io
pub mod IoCost
pub mod Devices
