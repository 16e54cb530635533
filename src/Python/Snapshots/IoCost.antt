-- ===== src/Python/Snapshots/IoCost.antt =====
-- The snapshots of I/O costs of the bindings: sakai-python/src/linux/io.rs.
use sakai.Base.{Bool}
use sakai.Str.{Str}
use sakai.Unit.{Time, BytesPerSecond, OperationsPerSecond, Float}
use sakai.Io.Cost.{control_name, model_name, IoDeviceCostQos, IoDeviceCostModel}

pub record PythonIoDeviceCostQos (f : Float) : Type 0 where
  pub enabled : Bool
  pub control : Str
  pub read_percentile : f.Ratio
  pub read_latency : Time
  pub write_percentile : f.Ratio
  pub write_latency : Time
  pub min_scaling : f.Ratio
  pub max_scaling : f.Ratio

-- `From<CoreIoDeviceCostQos> for IoDeviceCostQos`
unfoldable pub from_cost_qos : {f : Float} → IoDeviceCostQos f → PythonIoDeviceCostQos f
unfolding control_name
from_cost_qos v = record {
  enabled = v.enabled;
  control = control_name v.control;
  read_percentile = v.read_percentile;
  read_latency = v.read_latency;
  write_percentile = v.write_percentile;
  write_latency = v.write_latency;
  min_scaling = v.min_scaling;
  max_scaling = v.max_scaling;
}

pub record PythonIoDeviceCostModel : Type 0 where
  pub control : Str
  pub model : Str
  pub read_bandwidth : BytesPerSecond
  pub read_sequential_iops : OperationsPerSecond
  pub read_random_iops : OperationsPerSecond
  pub write_bandwidth : BytesPerSecond
  pub write_sequential_iops : OperationsPerSecond
  pub write_random_iops : OperationsPerSecond

-- `From<CoreIoDeviceCostModel> for IoDeviceCostModel`
unfoldable pub from_cost_model : IoDeviceCostModel → PythonIoDeviceCostModel
unfolding control_name model_name
from_cost_model v = record {
  control = control_name v.control;
  model = model_name v.model;
  read_bandwidth = v.read_bandwidth;
  read_sequential_iops = v.read_sequential_iops;
  read_random_iops = v.read_random_iops;
  write_bandwidth = v.write_bandwidth;
  write_sequential_iops = v.write_sequential_iops;
  write_random_iops = v.write_random_iops;
}
