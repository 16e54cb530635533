-- ===== src/Handle/Discovery.antt =====
-- Finding and opening the cgroup of a process, sakai/src/cgroup/v2/handle.rs.
use sakai.Base.{
  ltb, leb, if◌then◌else◌, Result, ok, err, ◌>>=◌, map_err, ℕ, ◌&&◌, Option, none, some, List, [],
  ◌∷◌,
}
use sakai.Num.{i32_max}
use sakai.Paths.{PathBuf}
use sakai.Os.{invalid_input, custom, Failure, not_cgroup_v2, deleted_cgroup, io}
use sakai.Locate.{
  Membership, Mount, CgroupPath, ProcError, CgroupPathError, procfs, unified_hierarchy_not_found,
  unified_mount_not_found, deleted, candidates, procfs_failure,
}
use sakai.Handle.{Kernel, Fallible, Cgroup, from_path}

module _ {S T : Type 0} (opener : PathBuf → S → Fallible T × S) where
  abbrev get_or_insert : Option Failure → Failure → Failure
  get_or_insert none e = e
  get_or_insert (some first) e = first

  abbrev or_not_cgroup : Option Failure → Failure
  or_not_cgroup none = not_cgroup_v2
  or_not_cgroup (some first) = first

  abbrev pub try_each : Option Failure → List CgroupPath → S → Fallible T × S
  try_each first [] s = (err (or_not_cgroup first), s)
  try_each first (c ∷ cs) s = elim (opener c.path s).0 [
    | ok value ↦ (ok value, (opener c.path s).1)
    | err e ↦ try_each (some (get_or_insert first e)) cs (opener c.path s).1
  ]

  -- `Cgroup::open_candidates`, with the state that `open` changes.
  unfoldable pub open_candidates : List CgroupPath → S → Fallible T × S
  open_candidates cs s = try_each none cs s

-- The guard of `Cgroup::from_pid`: `i32::try_from(pid).ok().filter(positive)`.
unfoldable pub process_id : ℕ → Fallible ℕ
process_id pid = if leb pid i32_max && ltb 0 pid then ok pid else err (io (custom invalid_input))

-- How `Cgroup::from_pid` reports what was not found.
unfoldable pub locate_failure : CgroupPathError → Failure
unfolding procfs_failure
locate_failure (procfs source) = procfs_failure source
locate_failure (deleted path) = deleted_cgroup path
locate_failure unified_hierarchy_not_found = not_cgroup_v2
locate_failure unified_mount_not_found = not_cgroup_v2

module _ (k : Kernel) where
  abbrev pub open_one : PathBuf → Unit {0} → Fallible (Cgroup k) × Unit {0}
  open_one path s = (from_path k path, s)

  -- `Cgroup::from_pid`, with what procfs reads of a process and of the caller.
  unfoldable pub from_pid :
      (ℕ → Result ProcError (Result ProcError (List Membership)))
      → Result ProcError (Result ProcError (List Mount))
      → ℕ
      → Fallible (Cgroup k)
  unfolding process_id candidates locate_failure procfs_failure from_path open_candidates
  from_pid process myself pid = do
    id ← process_id pid
    cgroups ← map_err procfs_failure (process id)
    mountinfo ← map_err procfs_failure myself
    found ← map_err locate_failure (candidates cgroups mountinfo)
    (open_candidates open_one found tt).0

-- `Cgroup::from_current_process`, with the number of the process.
unfoldable pub from_current_process :
    (k : Kernel)
    → (ℕ → Result ProcError (Result ProcError (List Membership)))
    → Result ProcError (Result ProcError (List Mount))
    → ℕ
    → Fallible (Cgroup k)
unfolding from_pid
from_current_process k process myself own_id = from_pid k process myself own_id
