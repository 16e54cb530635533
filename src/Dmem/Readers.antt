-- ===== src/Dmem/Readers.antt =====
-- Reading the files from a handle: the methods of `Dmem` in sakai/src/cgroup/v2/dmem.rs.
use sakai.Dmem.{parse_dmem_capacity, parse_dmem_usage}
use sakai.BTreeMap.{BTreeMap}
use sakai.Str.{Str, codes}
use sakai.Unit.{Bytes, MaxOr}
use sakai.Handle.{Kernel, Fallible, Cgroup, parse}

module _ (k : Kernel) (cgroup : Cgroup k) where
  -- `Dmem::capacity`
  unfoldable pub capacity : Fallible (BTreeMap Str Bytes)
  unfolding parse parse_dmem_capacity
  capacity = parse k parse_dmem_capacity cgroup (codes "dmem.capacity")

  -- `Dmem::current`
  unfoldable pub current : Fallible (BTreeMap Str (MaxOr Bytes))
  unfolding parse parse_dmem_usage
  current = parse k parse_dmem_usage cgroup (codes "dmem.current")

  -- `Dmem::peak`
  unfoldable pub peak : Fallible (BTreeMap Str (MaxOr Bytes))
  unfolding parse parse_dmem_usage
  peak = parse k parse_dmem_usage cgroup (codes "dmem.peak")

  -- `Dmem::min`
  unfoldable pub min : Fallible (BTreeMap Str (MaxOr Bytes))
  unfolding parse parse_dmem_usage
  min = parse k parse_dmem_usage cgroup (codes "dmem.min")

  -- `Dmem::low`
  unfoldable pub low : Fallible (BTreeMap Str (MaxOr Bytes))
  unfolding parse parse_dmem_usage
  low = parse k parse_dmem_usage cgroup (codes "dmem.low")

  -- `Dmem::max`
  unfoldable pub max : Fallible (BTreeMap Str (MaxOr Bytes))
  unfolding parse parse_dmem_usage
  max = parse k parse_dmem_usage cgroup (codes "dmem.max")
