-- ===== src/Cpuset/Readers.antt =====
-- Reading the files from a handle: the methods of `Cpuset` in sakai/src/cgroup/v2/cpuset/mod.rs.
use sakai.Cpuset.Partition.{CpusetPartition, parse_partition}
use sakai.Cpuset.IdList.{IdList, parse_cpu_list, parse_memory_node_list}
use sakai.Str.{codes}
use sakai.Handle.{Kernel, Fallible, Cgroup, parse}

module _ (k : Kernel) (cgroup : Cgroup k) where
  -- `Cpuset::cpus`
  unfoldable pub cpus : Fallible IdList
  unfolding parse parse_cpu_list
  cpus = parse k parse_cpu_list cgroup (codes "cpuset.cpus")

  -- `Cpuset::cpus_effective`
  unfoldable pub cpus_effective : Fallible IdList
  unfolding parse parse_cpu_list
  cpus_effective = parse k parse_cpu_list cgroup (codes "cpuset.cpus.effective")

  -- `Cpuset::cpus_exclusive`
  unfoldable pub cpus_exclusive : Fallible IdList
  unfolding parse parse_cpu_list
  cpus_exclusive = parse k parse_cpu_list cgroup (codes "cpuset.cpus.exclusive")

  -- `Cpuset::cpus_exclusive_effective`
  unfoldable pub cpus_exclusive_effective : Fallible IdList
  unfolding parse parse_cpu_list
  cpus_exclusive_effective = parse k parse_cpu_list cgroup (codes "cpuset.cpus.exclusive.effective")

  -- `Cpuset::cpus_isolated`
  unfoldable pub cpus_isolated : Fallible IdList
  unfolding parse parse_cpu_list
  cpus_isolated = parse k parse_cpu_list cgroup (codes "cpuset.cpus.isolated")

  -- `Cpuset::mems`
  unfoldable pub mems : Fallible IdList
  unfolding parse parse_memory_node_list
  mems = parse k parse_memory_node_list cgroup (codes "cpuset.mems")

  -- `Cpuset::mems_effective`
  unfoldable pub mems_effective : Fallible IdList
  unfolding parse parse_memory_node_list
  mems_effective = parse k parse_memory_node_list cgroup (codes "cpuset.mems.effective")

  -- `Cpuset::partition`
  unfoldable pub partition : Fallible CpusetPartition
  unfolding parse parse_partition
  partition = parse k parse_partition cgroup (codes "cpuset.cpus.partition")
