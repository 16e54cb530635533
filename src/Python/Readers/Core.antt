-- ===== src/Python/Readers/Core.antt =====
-- `CoreReader` of sakai-python/src/linux/core.rs.
pub mod Words
use sakai.Num.{ℤ}
use sakai.Str.{Str}
use sakai.Core.Controller.{controller_name}
use sakai.Core.Task.{TaskId}
use sakai.Base.{map_ok, Bool, List, map}
use sakai.Handle.{Kernel, Cgroup}
use sakai.Python.Errors.{PyResult, Interpreter, python_result}
use sakai.Python.Limit.{PythonMaxOr, from_count}
use sakai.Scalar.{value_of}
use sakai.Unit.{Float}
use sakai.Core.Readers.{
  freeze, max_depth, max_descendants, pressure_enabled, procs, threads, controllers,
  subtree_control,
}

module _ (py : Interpreter) (k : Kernel) (f : Float) (cgroup : Cgroup k) where
  -- `CoreReader::freeze`
  unfoldable pub python_core_freeze : PyResult Bool
  unfolding python_result value_of freeze
  python_core_freeze = map_ok (λ v. v.snapshot) (python_result py (freeze k f cgroup))

  -- `CoreReader::max_depth`
  unfoldable pub python_core_max_depth : PyResult (PythonMaxOr f)
  unfolding python_result from_count value_of max_depth
  python_core_max_depth =
      map_ok (λ v. from_count v.snapshot) (python_result py (max_depth k f cgroup))

  -- `CoreReader::max_descendants`
  unfoldable pub python_core_max_descendants : PyResult (PythonMaxOr f)
  unfolding python_result from_count value_of max_descendants
  python_core_max_descendants =
      map_ok (λ v. from_count v.snapshot) (python_result py (max_descendants k f cgroup))

  -- `CoreReader::pressure_enabled`
  unfoldable pub python_core_pressure_enabled : PyResult Bool
  unfolding python_result value_of pressure_enabled
  python_core_pressure_enabled =
      map_ok (λ v. v.snapshot) (python_result py (pressure_enabled k f cgroup))

  abbrev ids_of : List TaskId → List ℤ
  ids_of tasks = map (λ task. task.id) tasks

  -- `CoreReader::procs`
  unfoldable pub python_core_procs : PyResult (List ℤ)
  unfolding python_result procs
  python_core_procs = map_ok ids_of (python_result py (procs k f cgroup))

  -- `CoreReader::threads`
  unfoldable pub python_core_threads : PyResult (List ℤ)
  unfolding python_result threads
  python_core_threads = map_ok ids_of (python_result py (threads k f cgroup))

  -- `CoreReader::controllers`
  unfoldable pub python_core_controllers : PyResult (List Str)
  unfolding python_result controllers controller_name
  python_core_controllers = map_ok (map controller_name) (python_result py (controllers k f cgroup))

  -- `CoreReader::subtree_control`
  unfoldable pub python_core_subtree_control : PyResult (List Str)
  unfolding python_result subtree_control controller_name
  python_core_subtree_control =
      map_ok (map controller_name) (python_result py (subtree_control k f cgroup))
