-- ===== src/Python/Readers/Pids.antt =====
-- `PidsReader` of sakai-python/src/linux/pids.rs.
use sakai.Base.{map_ok}
use sakai.Handle.{Kernel, Cgroup}
use sakai.Python.Errors.{PyResult, Interpreter, python_result}
use sakai.Python.Limit.{PythonMaxOr, from_count}
use sakai.Scalar.{value_of}
use sakai.Unit.{Count, Float}
use sakai.Pids.Readers.{current, peak, max}

module _ (py : Interpreter) (k : Kernel) (f : Float) (cgroup : Cgroup k) where
  -- `PidsReader::current`
  unfoldable pub python_pids_current : PyResult Count
  unfolding python_result value_of current
  python_pids_current = map_ok (λ v. v.snapshot) (python_result py (current k f cgroup))

  -- `PidsReader::peak`
  unfoldable pub python_pids_peak : PyResult Count
  unfolding python_result value_of peak
  python_pids_peak = map_ok (λ v. v.snapshot) (python_result py (peak k f cgroup))

  -- `PidsReader::max`
  unfoldable pub python_pids_max : PyResult (PythonMaxOr f)
  unfolding python_result from_count value_of max
  python_pids_max = map_ok (λ v. from_count v.snapshot) (python_result py (max k f cgroup))
