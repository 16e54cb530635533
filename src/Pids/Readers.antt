-- ===== src/Pids/Readers.antt =====
-- Reading the files from a handle: the methods of `Pids` in sakai/src/cgroup/v2/pids.rs.
use sakai.Pids.{PidsEvents, parse_pids_events}
use sakai.Str.{codes}
use sakai.Unit.{Float}
use sakai.Scalar.{pids_current, pids_peak, pids_max}
use sakai.Scalar.Readers.{Snapshot, read_scalar}
use sakai.Handle.{Kernel, Fallible, Cgroup, parse}

module _ (k : Kernel) (f : Float) (cgroup : Cgroup k) where
  -- `Pids::current`
  unfoldable pub current : Fallible (Snapshot k f cgroup pids_current)
  unfolding read_scalar
  current = read_scalar k f cgroup pids_current

  -- `Pids::peak`
  unfoldable pub peak : Fallible (Snapshot k f cgroup pids_peak)
  unfolding read_scalar
  peak = read_scalar k f cgroup pids_peak

  -- `Pids::max`
  unfoldable pub max : Fallible (Snapshot k f cgroup pids_max)
  unfolding read_scalar
  max = read_scalar k f cgroup pids_max

  -- `Pids::events`
  unfoldable pub events : Fallible PidsEvents
  unfolding parse parse_pids_events
  events = parse k parse_pids_events cgroup (codes "pids.events")

  -- `Pids::events_local`
  unfoldable pub events_local : Fallible PidsEvents
  unfolding parse parse_pids_events
  events_local = parse k parse_pids_events cgroup (codes "pids.events.local")
