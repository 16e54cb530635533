-- ===== src/Io/Readers.antt =====
-- Reading the files from a handle: the methods of `Io` in sakai/src/cgroup/v2/io/mod.rs.
use sakai.Io.Device.Order.{Device}
use sakai.BTreeMap.{BTreeMap}
use sakai.Io.Cost.{
  IoDeviceCostQos, parse_io_cost_qos, IoDeviceCostModel, parse_io_cost_model, IoPriorityClass,
  parse_io_priority,
}
use sakai.Io.Stat.{IoDeviceStat, parse_io_stat}
use sakai.Io.Weights.{IoWeight, parse_io_weight, parse_io_latency, IoDeviceMax, parse_io_max}
use sakai.Str.{codes}
use sakai.Unit.{NonZeroTime, Float}
use sakai.Pressure.{Pressure, parse_pressure}
use sakai.Handle.{Kernel, Fallible, Cgroup, parse}

module _ (k : Kernel) (f : Float) (cgroup : Cgroup k) where
  -- `Io::stat`
  unfoldable pub stat : Fallible (BTreeMap Device (IoDeviceStat f))
  unfolding parse parse_io_stat
  stat = parse k (parse_io_stat f) cgroup (codes "io.stat")

  -- `Io::pressure`
  unfoldable pub pressure : Fallible (Pressure f)
  unfolding parse parse_pressure
  pressure = parse k (parse_pressure f) cgroup (codes "io.pressure")

  -- `Io::weight`
  unfoldable pub weight : Fallible IoWeight
  unfolding parse parse_io_weight
  weight = parse k parse_io_weight cgroup (codes "io.weight")

  -- `Io::max`
  unfoldable pub max : Fallible (BTreeMap Device IoDeviceMax)
  unfolding parse parse_io_max
  max = parse k parse_io_max cgroup (codes "io.max")

  -- `Io::latency`
  unfoldable pub latency : Fallible (BTreeMap Device NonZeroTime)
  unfolding parse parse_io_latency
  latency = parse k parse_io_latency cgroup (codes "io.latency")

  -- `Io::cost_qos`
  unfoldable pub cost_qos : Fallible (BTreeMap Device (IoDeviceCostQos f))
  unfolding parse parse_io_cost_qos
  cost_qos = parse k (parse_io_cost_qos f) cgroup (codes "io.cost.qos")

  -- `Io::cost_model`
  unfoldable pub cost_model : Fallible (BTreeMap Device IoDeviceCostModel)
  unfolding parse parse_io_cost_model
  cost_model = parse k parse_io_cost_model cgroup (codes "io.cost.model")

  -- `Io::priority_class`
  unfoldable pub priority_class : Fallible IoPriorityClass
  unfolding parse parse_io_priority
  priority_class = parse k parse_io_priority cgroup (codes "io.prio.class")
