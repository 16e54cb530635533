-- ===== src/Memory/SwapReaders.antt =====
-- Reading the files from a handle: the methods of `Swap` in sakai/src/cgroup/v2/memory/swap.rs.
use sakai.Memory.Events.{SwapEvents, parse_swap_events}
use sakai.Str.{codes}
use sakai.Unit.{Float}
use sakai.Scalar.{swap_current, swap_peak, swap_max, swap_high}
use sakai.Scalar.Readers.{Snapshot, read_scalar}
use sakai.Handle.{Kernel, Fallible, Cgroup, parse}

module _ (k : Kernel) (f : Float) (cgroup : Cgroup k) where
  -- `Swap::current`
  unfoldable pub current : Fallible (Snapshot k f cgroup swap_current)
  unfolding read_scalar
  current = read_scalar k f cgroup swap_current

  -- `Swap::peak`
  unfoldable pub peak : Fallible (Snapshot k f cgroup swap_peak)
  unfolding read_scalar
  peak = read_scalar k f cgroup swap_peak

  -- `Swap::max`
  unfoldable pub max : Fallible (Snapshot k f cgroup swap_max)
  unfolding read_scalar
  max = read_scalar k f cgroup swap_max

  -- `Swap::high`
  unfoldable pub high : Fallible (Snapshot k f cgroup swap_high)
  unfolding read_scalar
  high = read_scalar k f cgroup swap_high

  -- `Swap::events`
  unfoldable pub events : Fallible SwapEvents
  unfolding parse parse_swap_events
  events = parse k parse_swap_events cgroup (codes "memory.swap.events")
