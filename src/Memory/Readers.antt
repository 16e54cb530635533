-- ===== src/Memory/Readers.antt =====
-- Reading the files from a handle: the methods of `Memory` in sakai/src/cgroup/v2/memory.rs.
use sakai.Memory.NumaStat.{MemoryNumaStat, parse_numa_stat}
use sakai.Memory.Stat.{MemoryStat, parse_memory_stat}
use sakai.Memory.Events.{MemoryEventCounts, parse_memory_events}
use sakai.Str.{codes}
use sakai.Unit.{Float}
use sakai.Pressure.{Pressure, parse_pressure}
use sakai.Scalar.{
  memory_oom_group, memory_current, memory_peak, memory_max, memory_high, memory_low, memory_min,
}
use sakai.Scalar.Readers.{Snapshot, read_scalar}
use sakai.Handle.{Kernel, Fallible, Cgroup, parse}

module _ (k : Kernel) (f : Float) (cgroup : Cgroup k) where
  -- `Memory::current`
  unfoldable pub current : Fallible (Snapshot k f cgroup memory_current)
  unfolding read_scalar
  current = read_scalar k f cgroup memory_current

  -- `Memory::peak`
  unfoldable pub peak : Fallible (Snapshot k f cgroup memory_peak)
  unfolding read_scalar
  peak = read_scalar k f cgroup memory_peak

  -- `Memory::stat`
  unfoldable pub stat : Fallible MemoryStat
  unfolding parse parse_memory_stat
  stat = parse k parse_memory_stat cgroup (codes "memory.stat")

  -- `Memory::events`
  unfoldable pub events : Fallible MemoryEventCounts
  unfolding parse parse_memory_events
  events = parse k parse_memory_events cgroup (codes "memory.events")

  -- `Memory::events_local`
  unfoldable pub events_local : Fallible MemoryEventCounts
  unfolding parse parse_memory_events
  events_local = parse k parse_memory_events cgroup (codes "memory.events.local")

  -- `Memory::numa_stat`
  unfoldable pub numa_stat : Fallible MemoryNumaStat
  unfolding parse parse_numa_stat
  numa_stat = parse k parse_numa_stat cgroup (codes "memory.numa_stat")

  -- `Memory::pressure`
  unfoldable pub pressure : Fallible (Pressure f)
  unfolding parse parse_pressure
  pressure = parse k (parse_pressure f) cgroup (codes "memory.pressure")

  -- `Memory::max`
  unfoldable pub max : Fallible (Snapshot k f cgroup memory_max)
  unfolding read_scalar
  max = read_scalar k f cgroup memory_max

  -- `Memory::high`
  unfoldable pub high : Fallible (Snapshot k f cgroup memory_high)
  unfolding read_scalar
  high = read_scalar k f cgroup memory_high

  -- `Memory::low`
  unfoldable pub low : Fallible (Snapshot k f cgroup memory_low)
  unfolding read_scalar
  low = read_scalar k f cgroup memory_low

  -- `Memory::min`
  unfoldable pub min : Fallible (Snapshot k f cgroup memory_min)
  unfolding read_scalar
  min = read_scalar k f cgroup memory_min

  -- `Memory::oom_group`
  unfoldable pub oom_group : Fallible (Snapshot k f cgroup memory_oom_group)
  unfolding read_scalar
  oom_group = read_scalar k f cgroup memory_oom_group
