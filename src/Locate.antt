-- ===== src/Locate.antt =====
-- Finding the directory of a process's cgroup, sakai/src/cgroup/v2/path.rs. What procfs reads is an
-- argument: the memberships of the target and the mounts that the caller sees.
pub mod Ranking
pub mod Shown
use sakai.Base.{
  leb, ◌==◌, if◌then◌else◌, length, is_empty, any, filter_map, Result, ok, err, ◌>>=◌, ◌>>◌,
  map_err, ok_or, ℕ, Bool, ◌&&◌, Option, none, some, List, [], ◌∷◌, map,
}
use sakai.Paths.{PathBuf, components, strip_path, join}
use sakai.Os.{enoent, eacces, other_kind, IoError, os, custom, Failure, operation, io}
use sakai.Str.{Str, codes, str_eq, strip_suffix}
use mathlib.Core.Option

-- A line of `/proc/pid/cgroup`.
pub record Membership : Type 0 where
  pub hierarchy : ℕ
  pub controllers : List Str
  pub pathname : Str

-- A line of `/proc/pid/mountinfo`: the fields that the code reads.
pub record Mount : Type 0 where
  pub fs_type : Str
  pub root : Str
  pub mount_point : PathBuf
  pub mount_options : List Str

pub record CgroupPath : Type 0 where
  pub path : PathBuf
  pub mount_point : PathBuf
  pub read_only : Bool

-- `procfs::ProcError`
pub data ProcError : Type 0 where
  permission_denied not_found incomplete : Option PathBuf → ProcError
  io_error : IoError → Option PathBuf → ProcError
  other_error : ProcError

pub data CgroupPathError : Type 0 where
  procfs : ProcError → CgroupPathError
  unified_hierarchy_not_found unified_mount_not_found : CgroupPathError
  deleted : PathBuf → CgroupPathError

abbrev Located : Type 0 → Type 0
Located A = Result CgroupPathError A

-- The first entry of the unified hierarchy.
unfoldable pub unified : List Membership → Option Membership
unified [] = none
unified (entry ∷ entries) =
    let rest = unified entries in
    if entry.hierarchy == 0 && is_empty entry.controllers then some entry else rest

abbrev visible : Mount → PathBuf → Option PathBuf → Option (ℕ × CgroupPath)
visible mount root none = none
visible mount root (some relative) = some (
  length root,
  record {
    path = join mount.mount_point relative;
    mount_point = mount.mount_point;
    read_only = any (str_eq (codes "ro")) mount.mount_options;
  },
)

-- A cgroup2 mount that shows the cgroup, with the depth of its root.
unfoldable pub candidate : PathBuf → Mount → Option (ℕ × CgroupPath)
unfolding components strip_path join str_eq
candidate cgroup mount =
    if str_eq mount.fs_type (codes "cgroup2")
    then visible mount (components mount.root) (strip_path (components mount.root) cgroup)
    else none

-- `sort_by_key(Reverse(depth))`, which keeps the order of equal keys.
unfoldable pub insert_ranked : ℕ × CgroupPath → List (ℕ × CgroupPath) → List (ℕ × CgroupPath)
insert_ranked x [] = x ∷ []
insert_ranked x (y ∷ ys) =
    let rest = insert_ranked x ys in if leb y.0 x.0 then x ∷ y ∷ ys else y ∷ rest

unfoldable pub sort_ranked : List (ℕ × CgroupPath) → List (ℕ × CgroupPath)
unfolding insert_ranked
sort_ranked [] = []
sort_ranked (x ∷ xs) = insert_ranked x (sort_ranked xs)

unfoldable pub ranked : PathBuf → List Mount → List (ℕ × CgroupPath)
unfolding sort_ranked candidate
ranked cgroup mounts = sort_ranked (filter_map (candidate cgroup) mounts)

abbrev of_ranked : List (ℕ × CgroupPath) → Located (List CgroupPath)
of_ranked [] = err unified_mount_not_found
of_ranked (x ∷ xs) = ok (map (λ (entry : ℕ × CgroupPath). entry.1) (x ∷ xs))

abbrev live_path : Str → Option Str → Located PathBuf
live_path pathname (some path) = err (deleted (components path))
live_path pathname none = ok (components pathname)

-- `CgroupPath::candidates`
unfoldable pub candidates :
    Result ProcError (List Membership) → Result ProcError (List Mount) → Located (List CgroupPath)
unfolding unified strip_suffix ranked components
candidates cgroups mountinfo = do
  entries ← map_err procfs cgroups
  membership ← ok_or (unified entries) unified_hierarchy_not_found
  cgroup ← live_path membership.pathname (strip_suffix (codes " (deleted)") membership.pathname)
  mounts ← map_err procfs mountinfo
  of_ranked (ranked cgroup mounts)

abbrev first_of : List CgroupPath → Option CgroupPath
first_of [] = none
first_of (x ∷ xs) = some x

-- `CgroupPath::of_process`
unfoldable pub of_process :
    Result ProcError (List Membership) → Result ProcError (List Mount) → Located CgroupPath
unfolding candidates
of_process cgroups mountinfo = do
  found ← candidates cgroups mountinfo
  ok_or (first_of found) unified_mount_not_found

abbrev at_path : IoError → Option PathBuf → Failure
at_path source (some path) = operation (codes "read procfs") path source
at_path source none = io source

-- `Error::procfs`
unfoldable pub procfs_failure : ProcError → Failure
procfs_failure (io_error source path) = at_path source path
procfs_failure (permission_denied path) = at_path (os eacces) path
procfs_failure (not_found path) = at_path (os enoent) path
procfs_failure (incomplete path) = at_path (custom other_kind) path
procfs_failure other_error = at_path (custom other_kind) none
