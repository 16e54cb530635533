-- ===== src/Python/Readers/Misc.antt =====
-- `MiscReader` of sakai-python/src/linux/misc.rs, and its snapshots. A quantity wraps its value.
use sakai.Base.{map_ok}
use sakai.Handle.{Kernel, Cgroup}
use sakai.Python.Errors.{PyResult, Interpreter, python_result}
use sakai.Misc.Readers.{capacity, current, peak, max, events, events_local}
use sakai.BTreeMap.{BTreeMap, from_iter}
use sakai.BTreeMap.Order.{str_ord}
use sakai.BTreeMap.Values.{map_values}
use sakai.Python.Limit.{PythonMaxOr, from_count}
use sakai.Str.{Str}
use sakai.Unit.{Count, MaxOr, Float}

-- `MiscCapacity`, `MiscCurrent`, `MiscPeak` and `MiscEvents`: classes of the same field.
pub record PythonMiscCounts : Type 0 where
  pub resources : BTreeMap Str Count

-- `From<CoreCapacity> for MiscCapacity`, `From<CoreCurrent> for MiscCurrent`,
-- `From<CorePeak> for MiscPeak` and `From<CoreEvents> for MiscEvents`
unfoldable pub from_misc_counts : BTreeMap Str Count → PythonMiscCounts
unfolding from_iter
from_misc_counts values = record { resources = from_iter (map_values (λ v. v) values) }

pub record PythonMiscMax (f : Float) : Type 0 where
  pub resources : BTreeMap Str (PythonMaxOr f)

-- `From<CoreMax> for MiscMax`
unfoldable pub from_misc_max : {f : Float} → BTreeMap Str (MaxOr Count) → PythonMiscMax f
unfolding from_iter from_count
from_misc_max values = record { resources = from_iter (map_values from_count values) }

module _ (py : Interpreter) (k : Kernel) (f : Float) (cgroup : Cgroup k) where
  -- `MiscReader::capacity`
  unfoldable pub python_misc_capacity : PyResult PythonMiscCounts
  unfolding python_result capacity from_misc_counts
  python_misc_capacity = map_ok from_misc_counts (python_result py (capacity k cgroup))

  -- `MiscReader::current`
  unfoldable pub python_misc_current : PyResult PythonMiscCounts
  unfolding python_result current from_misc_counts
  python_misc_current = map_ok from_misc_counts (python_result py (current k cgroup))

  -- `MiscReader::peak`
  unfoldable pub python_misc_peak : PyResult PythonMiscCounts
  unfolding python_result peak from_misc_counts
  python_misc_peak = map_ok from_misc_counts (python_result py (peak k cgroup))

  -- `MiscReader::max`
  unfoldable pub python_misc_max : PyResult (PythonMiscMax f)
  unfolding python_result max from_misc_max
  python_misc_max = map_ok from_misc_max (python_result py (max k cgroup))

  -- `MiscReader::events`
  unfoldable pub python_misc_events : PyResult PythonMiscCounts
  unfolding python_result events from_misc_counts
  python_misc_events = map_ok from_misc_counts (python_result py (events k cgroup))

  -- `MiscReader::events_local`
  unfoldable pub python_misc_events_local : PyResult PythonMiscCounts
  unfolding python_result events_local from_misc_counts
  python_misc_events_local = map_ok from_misc_counts (python_result py (events_local k cgroup))
