-- ===== src/Cpu/Readers.antt =====
-- Reading the files from a handle: the methods of `Cpu` in sakai/src/cgroup/v2/cpu/mod.rs.
use sakai.Cpu.Stat.{CpuStat, CpuStatLocal, parse_cpu_stat, parse_cpu_stat_local}
use sakai.Cpu.Limits.{CpuMax, parse_cpu_max, CpuWeight, parse_cpu_weight, Nice, parse_nice}
use sakai.Str.{codes}
use sakai.Unit.{Float}
use sakai.Pressure.{Pressure, parse_pressure}
use sakai.Scalar.{cpu_idle, cpu_max_burst, cpu_uclamp_min, cpu_uclamp_max}
use sakai.Scalar.Readers.{Snapshot, read_scalar}
use sakai.Handle.{Kernel, Fallible, Cgroup, parse}

module _ (k : Kernel) (f : Float) (cgroup : Cgroup k) where
  -- `Cpu::stat`
  unfoldable pub stat : Fallible CpuStat
  unfolding parse parse_cpu_stat
  stat = parse k parse_cpu_stat cgroup (codes "cpu.stat")

  -- `Cpu::stat_local`
  unfoldable pub stat_local : Fallible CpuStatLocal
  unfolding parse parse_cpu_stat_local
  stat_local = parse k parse_cpu_stat_local cgroup (codes "cpu.stat.local")

  -- `Cpu::weight`
  unfoldable pub weight : Fallible CpuWeight
  unfolding parse parse_cpu_weight
  weight = parse k parse_cpu_weight cgroup (codes "cpu.weight")

  -- `Cpu::weight_nice`
  unfoldable pub weight_nice : Fallible Nice
  unfolding parse parse_nice
  weight_nice = parse k parse_nice cgroup (codes "cpu.weight.nice")

  -- `Cpu::max`
  unfoldable pub max : Fallible CpuMax
  unfolding parse parse_cpu_max
  max = parse k parse_cpu_max cgroup (codes "cpu.max")

  -- `Cpu::max_burst`
  unfoldable pub max_burst : Fallible (Snapshot k f cgroup cpu_max_burst)
  unfolding read_scalar
  max_burst = read_scalar k f cgroup cpu_max_burst

  -- `Cpu::pressure`
  unfoldable pub pressure : Fallible (Pressure f)
  unfolding parse parse_pressure
  pressure = parse k (parse_pressure f) cgroup (codes "cpu.pressure")

  -- `Cpu::uclamp_min`
  unfoldable pub uclamp_min : Fallible (Snapshot k f cgroup cpu_uclamp_min)
  unfolding read_scalar
  uclamp_min = read_scalar k f cgroup cpu_uclamp_min

  -- `Cpu::uclamp_max`
  unfoldable pub uclamp_max : Fallible (Snapshot k f cgroup cpu_uclamp_max)
  unfolding read_scalar
  uclamp_max = read_scalar k f cgroup cpu_uclamp_max

  -- `Cpu::idle`
  unfoldable pub idle : Fallible (Snapshot k f cgroup cpu_idle)
  unfolding read_scalar
  idle = read_scalar k f cgroup cpu_idle
