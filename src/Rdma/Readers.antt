-- ===== src/Rdma/Readers.antt =====
-- Reading the files from a handle: the methods of `Rdma` in sakai/src/cgroup/v2/rdma.rs.
use sakai.BTreeMap.{BTreeMap}
use sakai.Str.{codes}
use sakai.Rdma.Device.{RdmaDevice}
use sakai.Rdma.Files.{
  RdmaDeviceCurrent, RdmaDeviceMax, RdmaDeviceEvents, parse_rdma_current, parse_rdma_max,
  parse_rdma_events,
}
use sakai.Handle.{Kernel, Fallible, Cgroup, parse}

module _ (k : Kernel) (cgroup : Cgroup k) where
  -- `Rdma::current`
  unfoldable pub current : Fallible (BTreeMap RdmaDevice RdmaDeviceCurrent)
  unfolding parse parse_rdma_current
  current = parse k parse_rdma_current cgroup (codes "rdma.current")

  -- `Rdma::max`
  unfoldable pub max : Fallible (BTreeMap RdmaDevice RdmaDeviceMax)
  unfolding parse parse_rdma_max
  max = parse k parse_rdma_max cgroup (codes "rdma.max")

  -- `Rdma::peak`
  unfoldable pub peak : Fallible (BTreeMap RdmaDevice RdmaDeviceCurrent)
  unfolding parse parse_rdma_current
  peak = parse k parse_rdma_current cgroup (codes "rdma.peak")

  -- `Rdma::events`
  unfoldable pub events : Fallible (BTreeMap RdmaDevice RdmaDeviceEvents)
  unfolding parse parse_rdma_events
  events = parse k parse_rdma_events cgroup (codes "rdma.events")

  -- `Rdma::events_local`
  unfoldable pub events_local : Fallible (BTreeMap RdmaDevice RdmaDeviceEvents)
  unfolding parse parse_rdma_events
  events_local = parse k parse_rdma_events cgroup (codes "rdma.events.local")
