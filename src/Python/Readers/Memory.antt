-- ===== src/Python/Readers/Memory.antt =====
-- `MemoryReader` of sakai-python/src/linux/memory.rs.
use sakai.Python.Snapshots.Pressure.{PythonPressure, from_pressure}
use sakai.Base.{map_ok, Bool}
use sakai.Handle.{Kernel, Cgroup}
use sakai.Python.Errors.{PyResult, Interpreter, python_result}
use sakai.Python.Limit.{PythonMaxOr, from_bytes}
use sakai.Scalar.{value_of}
use sakai.Unit.{Bytes, Float}
use sakai.Memory.Readers.{current, peak, pressure, max, high, low, min, oom_group}

module _ (py : Interpreter) (k : Kernel) (f : Float) (cgroup : Cgroup k) where
  -- `MemoryReader::current`
  unfoldable pub python_memory_current : PyResult Bytes
  unfolding python_result value_of current
  python_memory_current = map_ok (λ v. v.snapshot) (python_result py (current k f cgroup))

  -- `MemoryReader::peak`
  unfoldable pub python_memory_peak : PyResult Bytes
  unfolding python_result value_of peak
  python_memory_peak = map_ok (λ v. v.snapshot) (python_result py (peak k f cgroup))

  -- `MemoryReader::max`
  unfoldable pub python_memory_max : PyResult (PythonMaxOr f)
  unfolding python_result from_bytes value_of max
  python_memory_max = map_ok (λ v. from_bytes v.snapshot) (python_result py (max k f cgroup))

  -- `MemoryReader::high`
  unfoldable pub python_memory_high : PyResult (PythonMaxOr f)
  unfolding python_result from_bytes value_of high
  python_memory_high = map_ok (λ v. from_bytes v.snapshot) (python_result py (high k f cgroup))

  -- `MemoryReader::low`
  unfoldable pub python_memory_low : PyResult (PythonMaxOr f)
  unfolding python_result from_bytes value_of low
  python_memory_low = map_ok (λ v. from_bytes v.snapshot) (python_result py (low k f cgroup))

  -- `MemoryReader::min`
  unfoldable pub python_memory_min : PyResult (PythonMaxOr f)
  unfolding python_result from_bytes value_of min
  python_memory_min = map_ok (λ v. from_bytes v.snapshot) (python_result py (min k f cgroup))

  -- `MemoryReader::oom_group`
  unfoldable pub python_memory_oom_group : PyResult Bool
  unfolding python_result value_of oom_group
  python_memory_oom_group = map_ok (λ v. v.snapshot) (python_result py (oom_group k f cgroup))

  -- `MemoryReader::pressure`
  unfoldable pub python_memory_pressure : PyResult (PythonPressure f)
  unfolding python_result pressure from_pressure
  python_memory_pressure = map_ok from_pressure (python_result py (pressure k f cgroup))
