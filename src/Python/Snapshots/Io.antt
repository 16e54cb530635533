-- ===== src/Python/Snapshots/Io.antt =====
-- The I/O snapshots of the bindings: sakai-python/src/linux/io.rs. A device is a tuple; a snapshot of
-- devices is their map.
use sakai.BTreeMap.Order.{nat_ord}
use sakai.Num.{ℤ}
use sakai.Base.{ℕ, Option, map}
use sakai.Python.Limit.{PythonLimitValue, PythonMaxOr, from_value, from_count}
use sakai.Unit.{Time, Bytes, Count, MaxOr, Float}
use sakai.BTreeMap.{BTreeMap, from_iter}
use sakai.BTreeMap.Keys.{on_entry, pair_ord}
use sakai.Io.Device.Order.{Device}
use sakai.Io.Stat.{DelayUsage, IoDeviceStat}
use sakai.Io.Weights.{IoWeight, IoDeviceMax}
use mathlib.Core.Option

-- `DeviceKey`
abbrev pub IoKey : Type 0
IoKey = ℕ × ℕ

-- The numbers of a device.
abbrev pub io_key : Device → IoKey
io_key device = (device.major, device.minor)

-- `IoValues::devices`
unfoldable pub io_devices : {T O : Type 0} → (T → O) → BTreeMap Device T → BTreeMap IoKey O
unfolding from_iter
io_devices convert values = from_iter (map (on_entry io_key convert) values)

pub record PythonIoDeviceStat (f : Float) : Type 0 where
  pub read_bytes : Option Bytes
  pub write_bytes : Option Bytes
  pub discard_bytes : Option Bytes
  pub read_operations : Option Count
  pub write_operations : Option Count
  pub discard_operations : Option Count
  pub use_delay : Option ℤ
  pub delay : Option Time
  pub depth : Option (MaxOr Count)
  pub average_latency : Option Time
  pub latency_window : Option Time
  pub missed : Option Count
  pub total : Option Count
  pub cost_usage : Option Time
  pub cost_wait : Option Time
  pub cost_indebt : Option Time
  pub cost_indelay : Option Time
  pub cost_vrate : Option f.Ratio

-- `From<CoreIoDeviceStat> for IoDeviceStat`
unfoldable pub from_io_device_stat : {f : Float} → IoDeviceStat f → PythonIoDeviceStat f
from_io_device_stat v = record {
  read_bytes = v.read_bytes;
  write_bytes = v.write_bytes;
  discard_bytes = v.discard_bytes;
  read_operations = v.read_operations;
  write_operations = v.write_operations;
  discard_operations = v.discard_operations;
  use_delay = Option.map (λ (u : DelayUsage). u.usage) v.delay_usage;
  delay = v.delay;
  depth = v.depth;
  average_latency = v.average_latency;
  latency_window = v.latency_window;
  missed = v.missed;
  total = v.total;
  cost_usage = v.cost_usage;
  cost_wait = v.cost_wait;
  cost_indebt = v.cost_indebt;
  cost_indelay = v.cost_indelay;
  cost_vrate = v.cost_vrate;
}

-- `IoDeviceStat::depth`
unfoldable pub stat_depth : {f : Float} → PythonIoDeviceStat f → Option (PythonMaxOr f)
unfolding from_count
stat_depth stat = Option.map from_count stat.depth

pub record PythonIoWeight : Type 0 where
  pub default_weight : ℕ
  pub devices : BTreeMap IoKey ℕ

-- `From<CoreIoWeight> for IoWeight`
unfoldable pub from_io_weight : IoWeight → PythonIoWeight
unfolding io_devices
from_io_weight v = record {
  default_weight = v.default_weight.weight;
  devices = io_devices (λ w. w.weight) v.devices;
}

pub record PythonIoDeviceMax (f : Float) : Type 0 where
  pub read_bandwidth : PythonMaxOr f
  pub write_bandwidth : PythonMaxOr f
  pub read_iops : PythonMaxOr f
  pub write_iops : PythonMaxOr f

-- `From<CoreIoDeviceMax> for IoDeviceMax`
unfoldable pub from_io_device_max : {f : Float} → IoDeviceMax → PythonIoDeviceMax f
unfolding from_value
from_io_device_max v = record {
  read_bandwidth = from_value v.read_bandwidth PythonLimitValue.bandwidth;
  write_bandwidth = from_value v.write_bandwidth PythonLimitValue.bandwidth;
  read_iops = from_value v.read_iops PythonLimitValue.operations;
  write_iops = from_value v.write_iops PythonLimitValue.operations;
}
