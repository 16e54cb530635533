-- ===== src/Python/Readers/Zswap.antt =====
-- `ZswapReader` of sakai-python/src/linux/memory.rs.
use sakai.Base.{map_ok, Bool}
use sakai.Handle.{Kernel, Cgroup}
use sakai.Python.Errors.{PyResult, Interpreter, python_result}
use sakai.Python.Limit.{PythonMaxOr, from_bytes}
use sakai.Scalar.{value_of}
use sakai.Unit.{Bytes, Float}
use sakai.Memory.ZswapReaders.{current, max, writeback}

module _ (py : Interpreter) (k : Kernel) (f : Float) (cgroup : Cgroup k) where
  -- `ZswapReader::current`
  unfoldable pub python_zswap_current : PyResult Bytes
  unfolding python_result value_of current
  python_zswap_current = map_ok (λ v. v.snapshot) (python_result py (current k f cgroup))

  -- `ZswapReader::max`
  unfoldable pub python_zswap_max : PyResult (PythonMaxOr f)
  unfolding python_result from_bytes value_of max
  python_zswap_max = map_ok (λ v. from_bytes v.snapshot) (python_result py (max k f cgroup))

  -- `ZswapReader::writeback`
  unfoldable pub python_zswap_writeback : PyResult Bool
  unfolding python_result value_of writeback
  python_zswap_writeback = map_ok (λ v. v.snapshot) (python_result py (writeback k f cgroup))
