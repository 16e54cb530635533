-- ===== src/Python/Readers/Swap.antt =====
-- `SwapReader` of sakai-python/src/linux/memory.rs.
use sakai.Base.{map_ok}
use sakai.Handle.{Kernel, Cgroup}
use sakai.Python.Errors.{PyResult, Interpreter, python_result}
use sakai.Python.Limit.{PythonMaxOr, from_bytes}
use sakai.Scalar.{value_of}
use sakai.Unit.{Bytes, Float}
use sakai.Memory.SwapReaders.{current, peak, max, high}

module _ (py : Interpreter) (k : Kernel) (f : Float) (cgroup : Cgroup k) where
  -- `SwapReader::current`
  unfoldable pub python_swap_current : PyResult Bytes
  unfolding python_result value_of current
  python_swap_current = map_ok (λ v. v.snapshot) (python_result py (current k f cgroup))

  -- `SwapReader::peak`
  unfoldable pub python_swap_peak : PyResult Bytes
  unfolding python_result value_of peak
  python_swap_peak = map_ok (λ v. v.snapshot) (python_result py (peak k f cgroup))

  -- `SwapReader::max`
  unfoldable pub python_swap_max : PyResult (PythonMaxOr f)
  unfolding python_result from_bytes value_of max
  python_swap_max = map_ok (λ v. from_bytes v.snapshot) (python_result py (max k f cgroup))

  -- `SwapReader::high`
  unfoldable pub python_swap_high : PyResult (PythonMaxOr f)
  unfolding python_result from_bytes value_of high
  python_swap_high = map_ok (λ v. from_bytes v.snapshot) (python_result py (high k f cgroup))
