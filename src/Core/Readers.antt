-- ===== src/Core/Readers.antt =====
-- Reading the files from a handle: the methods of `Core` in sakai/src/cgroup/v2/core.rs.
use sakai.Core.Controller.{CgroupType, parse_type, CgroupController, controller_list}
use sakai.Core.Task.{TaskId, parse_tasks}
use sakai.Base.{Result, ◌>>=◌, map_ok, map_err, ok_or, List}
use sakai.Paths.{PathBuf, components, join}
use sakai.Os.{Failure, parse_failure}
use sakai.Core.State.{
  CgroupEvents, parse_cgroup_events, CgroupStatLocal, parse_cgroup_stat_local, CgroupStat,
  parse_cgroup_stat,
}
use sakai.Str.{Str, codes}
use sakai.Unit.{Float}
use sakai.Scalar.{cgroup_freeze, cgroup_max_depth, cgroup_max_descendants, cgroup_pressure}
use sakai.Scalar.Readers.{Snapshot, read_scalar}
use sakai.Handle.{Kernel, Fallible, Cgroup, read, parse}

-- What reading the type can fail with: the failures of a read, or a text that names no type.
pub data KindFailure : Type 0 where
  unread : Failure → KindFailure
  invalid_type : PathBuf → Str → KindFailure

module _ (k : Kernel) (f : Float) (cgroup : Cgroup k) where
  -- `Core::events`
  unfoldable pub events : Fallible CgroupEvents
  unfolding parse parse_cgroup_events
  events = parse k parse_cgroup_events cgroup (codes "cgroup.events")

  -- `Core::stat`
  unfoldable pub stat : Fallible CgroupStat
  unfolding parse parse_cgroup_stat
  stat = parse k parse_cgroup_stat cgroup (codes "cgroup.stat")

  -- `Core::stat_local`
  unfoldable pub stat_local : Fallible CgroupStatLocal
  unfolding parse parse_cgroup_stat_local
  stat_local = parse k parse_cgroup_stat_local cgroup (codes "cgroup.stat.local")

  -- `Core::freeze`
  unfoldable pub freeze : Fallible (Snapshot k f cgroup cgroup_freeze)
  unfolding read_scalar
  freeze = read_scalar k f cgroup cgroup_freeze

  -- `Core::max_depth`
  unfoldable pub max_depth : Fallible (Snapshot k f cgroup cgroup_max_depth)
  unfolding read_scalar
  max_depth = read_scalar k f cgroup cgroup_max_depth

  -- `Core::max_descendants`
  unfoldable pub max_descendants : Fallible (Snapshot k f cgroup cgroup_max_descendants)
  unfolding read_scalar
  max_descendants = read_scalar k f cgroup cgroup_max_descendants

  -- `Core::pressure_enabled`
  unfoldable pub pressure_enabled : Fallible (Snapshot k f cgroup cgroup_pressure)
  unfolding read_scalar
  pressure_enabled = read_scalar k f cgroup cgroup_pressure

  -- `Core::task_ids`
  unfoldable pub task_ids : Str → Fallible (List TaskId)
  unfolding read parse_tasks join components
  task_ids file = do
    contents ← read k cgroup file
    map_err (parse_failure (join cgroup.path (components file))) (parse_tasks contents)

  -- `Core::procs`
  unfoldable pub procs : Fallible (List TaskId)
  unfolding task_ids
  procs = task_ids (codes "cgroup.procs")

  -- `Core::threads`
  unfoldable pub threads : Fallible (List TaskId)
  unfolding task_ids
  threads = task_ids (codes "cgroup.threads")

  -- `Core::controller_list` on a file.
  unfoldable pub read_controllers : Str → Fallible (List CgroupController)
  unfolding read controller_list
  read_controllers file = map_ok controller_list (read k cgroup file)

  -- `Core::controllers`
  unfoldable pub controllers : Fallible (List CgroupController)
  unfolding read_controllers
  controllers = read_controllers (codes "cgroup.controllers")

  -- `Core::subtree_control`
  unfoldable pub subtree_control : Fallible (List CgroupController)
  unfolding read_controllers
  subtree_control = read_controllers (codes "cgroup.subtree_control")

  -- `Core::kind`
  unfoldable pub kind : Result KindFailure CgroupType
  unfolding read parse_type join components
  kind = do
    contents ← map_err unread (read k cgroup (codes "cgroup.type"))
    ok_or (parse_type contents)
        (invalid_type (join cgroup.path (components (codes "cgroup.type"))) contents)
