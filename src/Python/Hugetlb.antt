-- ===== src/Python/Hugetlb.antt =====
-- The HugeTLB reader of the bindings: sakai-python/src/linux/hugetlb.rs.
pub mod Labels
use sakai.Base.{◌>>=◌, ◌>>◌, map_ok, map_err}
use sakai.Handle.{Kernel, Cgroup}
use sakai.Hugetlb.Files.{HugetlbNumaStat}
use sakai.Hugetlb.PageSize.{PageSize, parse_size}
use sakai.Hugetlb.Readers.{
  current, max, reserved_current, reserved_max, events, events_local, numa_stat,
}
use sakai.Python.Errors.{value_error, PyResult, new_err, Interpreter, python_result}
use sakai.Python.Limit.{PythonMaxOr, from_bytes}
use sakai.Str.{Str}
use sakai.Unit.{Bytes, Count, Float}

-- `HugetlbReader::size`
unfoldable pub size_of_label : Str → PyResult PageSize
unfolding parse_size
size_of_label label = map_err (λ problem. new_err value_error) (parse_size label)

module _ (py : Interpreter) (k : Kernel) (cgroup : Cgroup k) (page_size : Str) where
  -- `HugetlbReader::current`
  unfoldable pub python_current : PyResult Bytes
  unfolding size_of_label python_result current
  python_current = do size ← size_of_label page_size; python_result py (current k cgroup size)

  module _ {f : Float} where
    -- `HugetlbReader::max`
    unfoldable pub python_max : PyResult (PythonMaxOr f)
    unfolding size_of_label python_result max from_bytes
    python_max = do
      size ← size_of_label page_size
      map_ok from_bytes (python_result py (max k cgroup size))

  -- `HugetlbReader::reserved_current`
  unfoldable pub python_reserved_current : PyResult Bytes
  unfolding size_of_label python_result reserved_current
  python_reserved_current = do
    size ← size_of_label page_size
    python_result py (reserved_current k cgroup size)

  module _ {f : Float} where
    -- `HugetlbReader::reserved_max`
    unfoldable pub python_reserved_max : PyResult (PythonMaxOr f)
    unfolding size_of_label python_result reserved_max from_bytes
    python_reserved_max = do
      size ← size_of_label page_size
      map_ok from_bytes (python_result py (reserved_max k cgroup size))

  -- `HugetlbReader::events`
  unfoldable pub python_events : PyResult Count
  unfolding size_of_label python_result events
  python_events = do size ← size_of_label page_size; python_result py (events k cgroup size)

  -- `HugetlbReader::events_local`
  unfoldable pub python_events_local : PyResult Count
  unfolding size_of_label python_result events_local
  python_events_local = do
    size ← size_of_label page_size
    python_result py (events_local k cgroup size)

  -- `HugetlbReader::numa_stat`
  unfoldable pub python_numa_stat : PyResult HugetlbNumaStat
  unfolding size_of_label python_result numa_stat
  python_numa_stat = do size ← size_of_label page_size; python_result py (numa_stat k cgroup size)
