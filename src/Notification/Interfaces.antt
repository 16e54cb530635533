-- ===== src/Notification/Interfaces.antt =====
-- The files that can be watched, by the names that `strum` derives: sakai/src/cgroup/v2/notification.rs.
use sakai.Base.{Option, List, [], ◌∷◌}
use sakai.Strum.{from_name}
use sakai.Str.{Str, codes}

pub data EventInterface : Type 0 where
  cgroup_events_event memory_events_event memory_events_local_event memory_swap_events_event :
      EventInterface
  pids_events_event cpuset_cpus_partition_event : EventInterface

-- `filename`, and `Display`
unfoldable pub event_filename : EventInterface → Str
event_filename cgroup_events_event = codes "cgroup.events"
event_filename memory_events_event = codes "memory.events"
event_filename memory_events_local_event = codes "memory.events.local"
event_filename memory_swap_events_event = codes "memory.swap.events"
event_filename pids_events_event = codes "pids.events"
event_filename cpuset_cpus_partition_event = codes "cpuset.cpus.partition"

abbrev pub event_interfaces : List EventInterface
event_interfaces =
    cgroup_events_event ∷ memory_events_event ∷ memory_events_local_event ∷ memory_swap_events_event
    ∷ pids_events_event ∷ cpuset_cpus_partition_event ∷ []

-- `EnumString`
unfoldable pub parse_event_interface : Str → Option EventInterface
unfolding from_name event_filename
parse_event_interface text = from_name event_filename event_interfaces text

pub data ConfigurationInterface : Type 0 where
  cgroup_type_config cgroup_subtree_control_config cpu_max_config cpu_weight_config :
      ConfigurationInterface
  cpu_uclamp_max_config cpu_uclamp_min_config cpu_max_burst_config cpu_weight_nice_config :
      ConfigurationInterface
  cpu_idle_config memory_max_config memory_high_config memory_low_config : ConfigurationInterface
  memory_min_config memory_oom_group_config memory_swap_max_config memory_swap_high_config :
      ConfigurationInterface
  memory_zswap_max_config memory_zswap_writeback_config pids_max_config io_weight_config :
      ConfigurationInterface
  io_max_config io_latency_config cpuset_cpus_config cpuset_mems_config : ConfigurationInterface
  cpuset_cpus_partition_config : ConfigurationInterface

-- `filename`, and `Display`
unfoldable pub configuration_filename : ConfigurationInterface → Str
configuration_filename cgroup_type_config = codes "cgroup.type"
configuration_filename cgroup_subtree_control_config = codes "cgroup.subtree_control"
configuration_filename cpu_max_config = codes "cpu.max"
configuration_filename cpu_weight_config = codes "cpu.weight"
configuration_filename cpu_uclamp_max_config = codes "cpu.uclamp.max"
configuration_filename cpu_uclamp_min_config = codes "cpu.uclamp.min"
configuration_filename cpu_max_burst_config = codes "cpu.max.burst"
configuration_filename cpu_weight_nice_config = codes "cpu.weight.nice"
configuration_filename cpu_idle_config = codes "cpu.idle"
configuration_filename memory_max_config = codes "memory.max"
configuration_filename memory_high_config = codes "memory.high"
configuration_filename memory_low_config = codes "memory.low"
configuration_filename memory_min_config = codes "memory.min"
configuration_filename memory_oom_group_config = codes "memory.oom.group"
configuration_filename memory_swap_max_config = codes "memory.swap.max"
configuration_filename memory_swap_high_config = codes "memory.swap.high"
configuration_filename memory_zswap_max_config = codes "memory.zswap.max"
configuration_filename memory_zswap_writeback_config = codes "memory.zswap.writeback"
configuration_filename pids_max_config = codes "pids.max"
configuration_filename io_weight_config = codes "io.weight"
configuration_filename io_max_config = codes "io.max"
configuration_filename io_latency_config = codes "io.latency"
configuration_filename cpuset_cpus_config = codes "cpuset.cpus"
configuration_filename cpuset_mems_config = codes "cpuset.mems"
configuration_filename cpuset_cpus_partition_config = codes "cpuset.cpus.partition"

abbrev pub configuration_interfaces : List ConfigurationInterface
configuration_interfaces =
    cgroup_type_config ∷ cgroup_subtree_control_config ∷ cpu_max_config ∷ cpu_weight_config
    ∷ cpu_uclamp_max_config ∷ cpu_uclamp_min_config ∷ cpu_max_burst_config ∷ cpu_weight_nice_config
    ∷ cpu_idle_config ∷ memory_max_config ∷ memory_high_config ∷ memory_low_config
    ∷ memory_min_config ∷ memory_oom_group_config ∷ memory_swap_max_config ∷ memory_swap_high_config
    ∷ memory_zswap_max_config ∷ memory_zswap_writeback_config ∷ pids_max_config ∷ io_weight_config
    ∷ io_max_config ∷ io_latency_config ∷ cpuset_cpus_config ∷ cpuset_mems_config
    ∷ cpuset_cpus_partition_config ∷ []

-- `EnumString`
unfoldable pub parse_configuration_interface : Str → Option ConfigurationInterface
unfolding from_name configuration_filename
parse_configuration_interface text = from_name configuration_filename configuration_interfaces text
