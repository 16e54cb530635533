-- ===== src/Hugetlb/Readers.antt =====
-- Reading the files of one page size: the methods of `Hugetlb` in sakai/src/cgroup/v2/hugetlb.rs.
pub mod Names
use sakai.Handle.{Kernel, Fallible, Cgroup, parse}
use sakai.Hugetlb.Files.{
  parse_hugetlb_current, parse_hugetlb_max, parse_hugetlb_events, HugetlbNumaStat,
  parse_hugetlb_numa_stat,
}
use sakai.Hugetlb.PageSize.{PageSize, file_name}
use sakai.Str.{codes}
use sakai.Unit.{Bytes, Count, MaxOr}

module _ (k : Kernel) (cgroup : Cgroup k) (size : PageSize) where
  -- `Hugetlb::current`
  unfoldable pub current : Fallible (Bytes)
  unfolding parse file_name parse_hugetlb_current
  current = parse k parse_hugetlb_current cgroup (file_name size (codes "current"))

  -- `Hugetlb::max`
  unfoldable pub max : Fallible (MaxOr Bytes)
  unfolding parse file_name parse_hugetlb_max
  max = parse k parse_hugetlb_max cgroup (file_name size (codes "max"))

  -- `Hugetlb::reserved_current`
  unfoldable pub reserved_current : Fallible Bytes
  unfolding parse file_name parse_hugetlb_current
  reserved_current = parse k parse_hugetlb_current cgroup (file_name size (codes "rsvd.current"))

  -- `Hugetlb::reserved_max`
  unfoldable pub reserved_max : Fallible (MaxOr Bytes)
  unfolding parse file_name parse_hugetlb_max
  reserved_max = parse k parse_hugetlb_max cgroup (file_name size (codes "rsvd.max"))

  -- `Hugetlb::events`
  unfoldable pub events : Fallible Count
  unfolding parse file_name parse_hugetlb_events
  events = parse k parse_hugetlb_events cgroup (file_name size (codes "events"))

  -- `Hugetlb::events_local`
  unfoldable pub events_local : Fallible Count
  unfolding parse file_name parse_hugetlb_events
  events_local = parse k parse_hugetlb_events cgroup (file_name size (codes "events.local"))

  -- `Hugetlb::numa_stat`
  unfoldable pub numa_stat : Fallible HugetlbNumaStat
  unfolding parse file_name parse_hugetlb_numa_stat
  numa_stat = parse k parse_hugetlb_numa_stat cgroup (file_name size (codes "numa_stat"))
