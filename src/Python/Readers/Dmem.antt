-- ===== src/Python/Readers/Dmem.antt =====
-- `DmemReader` of sakai-python/src/linux/dmem.rs, and its snapshots. A quantity wraps its value.
use sakai.Base.{map_ok}
use sakai.Handle.{Kernel, Cgroup}
use sakai.Python.Errors.{PyResult, Interpreter, python_result}
use sakai.Dmem.Readers.{capacity, current, peak, min, low, max}
use sakai.BTreeMap.{BTreeMap, from_iter}
use sakai.BTreeMap.Order.{str_ord}
use sakai.BTreeMap.Values.{map_values}
use sakai.Python.Limit.{PythonMaxOr, from_bytes}
use sakai.Str.{Str}
use sakai.Unit.{Bytes, MaxOr, Float}

pub record PythonDmemCapacity : Type 0 where
  pub regions : BTreeMap Str Bytes

-- `From<CoreDmemCapacity> for DmemCapacity`
unfoldable pub from_dmem_capacity : BTreeMap Str Bytes → PythonDmemCapacity
unfolding from_iter
from_dmem_capacity values = record { regions = from_iter (map_values (λ v. v) values) }

-- `DmemCurrent`, `DmemPeak` and `DmemLimits`: classes of the same field.
pub record PythonDmemUsage (f : Float) : Type 0 where
  pub regions : BTreeMap Str (PythonMaxOr f)

-- `From<CoreDmemCurrent> for DmemCurrent`, `From<CoreDmemPeak> for DmemPeak` and
-- `From<CoreDmemLimits> for DmemLimits`
unfoldable pub from_dmem_usage : {f : Float} → BTreeMap Str (MaxOr Bytes) → PythonDmemUsage f
unfolding from_iter from_bytes
from_dmem_usage values = record { regions = from_iter (map_values from_bytes values) }

module _ (py : Interpreter) (k : Kernel) (f : Float) (cgroup : Cgroup k) where
  -- `DmemReader::capacity`
  unfoldable pub python_dmem_capacity : PyResult PythonDmemCapacity
  unfolding python_result capacity from_dmem_capacity
  python_dmem_capacity = map_ok from_dmem_capacity (python_result py (capacity k cgroup))

  -- `DmemReader::current`
  unfoldable pub python_dmem_current : PyResult (PythonDmemUsage f)
  unfolding python_result current from_dmem_usage
  python_dmem_current = map_ok from_dmem_usage (python_result py (current k cgroup))

  -- `DmemReader::peak`
  unfoldable pub python_dmem_peak : PyResult (PythonDmemUsage f)
  unfolding python_result peak from_dmem_usage
  python_dmem_peak = map_ok from_dmem_usage (python_result py (peak k cgroup))

  -- `DmemReader::min`
  unfoldable pub python_dmem_min : PyResult (PythonDmemUsage f)
  unfolding python_result min from_dmem_usage
  python_dmem_min = map_ok from_dmem_usage (python_result py (min k cgroup))

  -- `DmemReader::low`
  unfoldable pub python_dmem_low : PyResult (PythonDmemUsage f)
  unfolding python_result low from_dmem_usage
  python_dmem_low = map_ok from_dmem_usage (python_result py (low k cgroup))

  -- `DmemReader::max`
  unfoldable pub python_dmem_max : PyResult (PythonDmemUsage f)
  unfolding python_result max from_dmem_usage
  python_dmem_max = map_ok from_dmem_usage (python_result py (max k cgroup))
