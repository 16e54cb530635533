-- ===== src/Misc/Readers.antt =====
-- Reading the files from a handle: the methods of `Misc` in sakai/src/cgroup/v2/misc.rs.
use sakai.Misc.{parse_misc_counts, parse_misc_max, parse_misc_events}
use sakai.BTreeMap.{BTreeMap}
use sakai.Str.{Str, codes}
use sakai.Unit.{Count, MaxOr}
use sakai.Handle.{Kernel, Fallible, Cgroup, parse}

module _ (k : Kernel) (cgroup : Cgroup k) where
  -- `Misc::capacity`
  unfoldable pub capacity : Fallible (BTreeMap Str Count)
  unfolding parse parse_misc_counts
  capacity = parse k parse_misc_counts cgroup (codes "misc.capacity")

  -- `Misc::current`
  unfoldable pub current : Fallible (BTreeMap Str Count)
  unfolding parse parse_misc_counts
  current = parse k parse_misc_counts cgroup (codes "misc.current")

  -- `Misc::peak`
  unfoldable pub peak : Fallible (BTreeMap Str Count)
  unfolding parse parse_misc_counts
  peak = parse k parse_misc_counts cgroup (codes "misc.peak")

  -- `Misc::max`
  unfoldable pub max : Fallible (BTreeMap Str (MaxOr Count))
  unfolding parse parse_misc_max
  max = parse k parse_misc_max cgroup (codes "misc.max")

  -- `Misc::events`
  unfoldable pub events : Fallible (BTreeMap Str Count)
  unfolding parse parse_misc_events
  events = parse k parse_misc_events cgroup (codes "misc.events")

  -- `Misc::events_local`
  unfoldable pub events_local : Fallible (BTreeMap Str Count)
  unfolding parse parse_misc_events
  events_local = parse k parse_misc_events cgroup (codes "misc.events.local")
