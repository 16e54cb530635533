-- ===== src/Python/Readers/Cpu.antt =====
-- `CpuReader` of sakai-python/src/linux/cpu.rs.
use sakai.Python.Snapshots.Pressure.{PythonPressure, from_pressure}
use sakai.Num.{ℤ}
use sakai.Python.Snapshots.Cpu.{
  PythonCpuStat, from_cpu_stat, PythonCpuStatLocal, from_cpu_stat_local, PythonCpuMax, from_cpu_max,
  PythonCpuWeight, from_cpu_weight,
}
use sakai.Base.{map_ok, Bool}
use sakai.Handle.{Kernel, Cgroup}
use sakai.Python.Errors.{PyResult, Interpreter, python_result}
use sakai.Python.Limit.{PythonMaxOr, from_ratio}
use sakai.Scalar.{value_of}
use sakai.Unit.{Time, Float}
use sakai.Cpu.Readers.{
  stat, stat_local, weight, weight_nice, max, max_burst, pressure, uclamp_min, uclamp_max, idle,
}

module _ (py : Interpreter) (k : Kernel) (f : Float) (cgroup : Cgroup k) where
  -- `CpuReader::stat`
  unfoldable pub python_cpu_stat : PyResult PythonCpuStat
  unfolding python_result stat from_cpu_stat
  python_cpu_stat = map_ok from_cpu_stat (python_result py (stat k f cgroup))

  -- `CpuReader::stat_local`
  unfoldable pub python_cpu_stat_local : PyResult PythonCpuStatLocal
  unfolding python_result stat_local from_cpu_stat_local
  python_cpu_stat_local = map_ok from_cpu_stat_local (python_result py (stat_local k f cgroup))

  -- `CpuReader::max`
  unfoldable pub python_cpu_max : PyResult (PythonCpuMax f)
  unfolding python_result max from_cpu_max
  python_cpu_max = map_ok from_cpu_max (python_result py (max k f cgroup))

  -- `CpuReader::weight`
  unfoldable pub python_cpu_weight : PyResult PythonCpuWeight
  unfolding python_result weight from_cpu_weight
  python_cpu_weight = map_ok from_cpu_weight (python_result py (weight k f cgroup))

  -- `CpuReader::weight_nice`
  unfoldable pub python_cpu_weight_nice : PyResult ℤ
  unfolding python_result weight_nice
  python_cpu_weight_nice = map_ok (λ n. n.nice) (python_result py (weight_nice k f cgroup))

  -- `CpuReader::pressure`
  unfoldable pub python_cpu_pressure : PyResult (PythonPressure f)
  unfolding python_result pressure from_pressure
  python_cpu_pressure = map_ok from_pressure (python_result py (pressure k f cgroup))

  -- `CpuReader::max_burst`
  unfoldable pub python_cpu_max_burst : PyResult Time
  unfolding python_result value_of max_burst
  python_cpu_max_burst = map_ok (λ v. v.snapshot) (python_result py (max_burst k f cgroup))

  -- `CpuReader::idle`
  unfoldable pub python_cpu_idle : PyResult Bool
  unfolding python_result value_of idle
  python_cpu_idle = map_ok (λ v. v.snapshot) (python_result py (idle k f cgroup))

  -- `CpuReader::uclamp_min`
  unfoldable pub python_cpu_uclamp_min : PyResult f.Ratio
  unfolding python_result value_of uclamp_min
  python_cpu_uclamp_min = map_ok (λ v. v.snapshot) (python_result py (uclamp_min k f cgroup))

  -- `CpuReader::uclamp_max`
  unfoldable pub python_cpu_uclamp_max : PyResult (PythonMaxOr f)
  unfolding python_result from_ratio value_of uclamp_max
  python_cpu_uclamp_max =
      map_ok (λ v. from_ratio v.snapshot) (python_result py (uclamp_max k f cgroup))
