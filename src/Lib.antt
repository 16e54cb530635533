-- ===== src/Lib.antt =====
-- Sakai reads the state of Linux control groups (cgroup v2) without changing it; beside the
-- crate are its Python bindings and the tasks that release it and download kernels for its
-- tests. A caller finds a cgroup, and reads snapshots of its interface files; each snapshot is
-- the parse of one file's text. This library models the reading of the texts (the parsing core,
-- the numbers and units, the files of every controller), and how a cgroup is found, opened and
-- watched.
--
-- How the parts interact: a controller's accessor reads the text of a file and calls `FromStr`
-- of the snapshot type. That parser splits the text by `Parser` (one value or a few in a row)
-- or `KeyedFields` (a key and a value on each line, collected into a map), and each value's
-- text goes through `ParseCgroup`, whose implementation is chosen by an encoding type. Here an
-- encoding is a decoder, a function from a text to a value or a `ParseValueError`, that the
-- parsers take as an argument.
--
-- - Base, Str, Num, Words: what the standard library of Rust provides. A `str` is the list of
--   its code points (Str), the integer parsers follow `core::num` digit by digit (Num), a
--   bounded integer is a natural number with its bound written at each parse. `Result` with `?`
--   is Base/Fallible. Words holds the texts that the kernel writes: words on lines.
-- - BTreeMap: `std::collections::BTreeMap` as the list of its entries in ascending order, with
--   the derived orders of the keys.
-- - Error: sakai/src/error.rs, `ParseError` and `ParseValueError`.
-- - Unit: sakai/src/unit.rs and sakai/src/limit.rs. A quantity of `uom` is the integer that it
--   stores. `f64` and the ratios are the record Float, an argument of the definitions that use
--   them.
-- - Decode: sakai/src/parse/mod.rs, the implementations of `ParseCgroup`.
-- - Parse: sakai/src/parse/mod.rs, `Parser` and `KeyedFields`.
-- - Strum: the conversions that `strum` derives from the names of an enum's variants.
-- - Scalar: sakai/src/scalar.rs, the interfaces of one value.
-- - Pressure: sakai/src/pressure.rs.
-- - Cpu: sakai/src/cgroup/v2/cpu/, limits in Cpu/Limits and statistics in Cpu/Stat.
-- - Cpuset: sakai/src/cgroup/v2/cpuset/, `IdList` in Cpuset/IdList and `CpusetPartition` in
--   Cpuset/Partition.
-- - Pids, Core, Memory, Io, Hugetlb, Rdma, Dmem, Misc: the files of the same names under
--   sakai/src/cgroup/v2/, one parser for each interface file.
-- - Paths, Os: `std::path` as lists of components, `std::io::Error` as an error number or a
--   kind, and `Error` of sakai/src/error.rs.
-- - Locate: sakai/src/cgroup/v2/path.rs, the candidate directories of a process, from what
--   procfs reads.
-- - Handle: sakai/src/cgroup/v2/handle.rs and file.rs. The record Kernel has the system calls
--   as functions of their arguments; `open_candidates` passes the state of its closure on.
-- - Notification: sakai/src/cgroup/v2/notification.rs. A wait takes the outcomes of its system
--   calls and returns the new state of the subscription beside its result; a run is a list of
--   such waits. The record Reader is the inotify reader of `rustix`.
-- - Readers below Scalar and below each controller: the methods that read its files from a
--   handle, of the struct with the controller's name in the same file of the source; in
--   Hugetlb/Readers by page size.
-- - Handle/Subscriptions: the methods of `Cgroup` that open a subscription.
-- - Attempts: the loop over a number of attempts that the developer tasks share; its body
--   returns, or goes on with a state.
-- - Http: xtask/src/http.rs, the failures of requests and which of them are retried.
-- - Release: xtask/src/release.rs. Release/Version has the tags, Release/Package the candidate
--   with the guards before it, Release/Retained the files between the steps, Release/Notes the
--   section of the changelog, Release/Registry the wait for the published version with a log of
--   its requests and pauses, and Release/Github the notes on the server, whose state is passed
--   on.
-- - Vmtest: xtask/src/vmtest/mod.rs and kernel.rs, the selection of kernels in
--   Vmtest/Selection, the build of the test in Vmtest/Build, the download in Vmtest/Download,
--   the cache of a kernel in Vmtest/Image, and the run over the kernels in Vmtest/Run, which
--   returns the caches and a log of what ran.
-- - Python: sakai-python/src/linux/, the exceptions in Python/Errors, handles in Python/Handle,
--   limits in Python/Limit, waits in Python/Waiting, the HugeTLB reader in Python/Hugetlb, the
--   methods of the readers in Python/Readers, their snapshots in Python/Snapshots, and the
--   memory statistics by name in Python/Statistics. What the interpreter does is the record
--   Interpreter.
-- - Examples: runs on small files and on a small system.
--
-- A name in the model is the name in the source in the spelling of this language; a `FromStr`
-- implementation is `parse_` and the name of the type, and a `from_fields` function is the name
-- of what it makes. Duplicate names carry their module.
--
-- Fuel: the loops over attempts recur on the attempts that are left; the loop over a batch of
-- events ends with the buffer, so a fuel above its number of events is enough
-- (Notification/Batch); printing a number divides by ten, with a fuel one above the number; the
-- test for a power of two halves 64 times, the width of the type.
--
-- Not modelled: the system calls themselves; the accessors that only borrow a handle; the texts
-- of the error messages; the conversions of `uom` and the arithmetic of floats, which are
-- libraries; the readers of the bindings for cpusets, and those of events and of cgroup.stat,
-- which copy a snapshot field by field; the dictionaries that their getters build; the run in a
-- container and the text of the guest's configuration; the tests. Commands, requests, JSON,
-- semantic versions and the Python interpreter are arguments, as records of what the code asks
-- them.
pub mod Base
pub mod Str
pub mod Num
pub mod Words
pub mod Spaced
pub mod BTreeMap
pub mod Error
pub mod Unit
pub mod Decode
pub mod Parse
pub mod Strum
pub mod Scalar
pub mod Cpu
pub mod Cpuset
pub mod Pressure
pub mod Pids
pub mod Core
pub mod Io
pub mod Memory
pub mod Dmem
pub mod Misc
pub mod Hugetlb
pub mod Rdma
pub mod Paths
pub mod Os
pub mod Notification
pub mod Locate
pub mod Handle
pub mod Attempts
pub mod Http
pub mod Release
pub mod Vmtest
pub mod Python
pub mod Examples
