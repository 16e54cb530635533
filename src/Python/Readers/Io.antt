-- ===== src/Python/Readers/Io.antt =====
-- `IoReader` of sakai-python/src/linux/io.rs.
use sakai.Str.{Str}
use sakai.Python.Snapshots.IoCost.{
  PythonIoDeviceCostQos, from_cost_qos, PythonIoDeviceCostModel, from_cost_model,
}
use sakai.Io.Cost.{priority_name}
use sakai.Python.Snapshots.Pressure.{PythonPressure, from_pressure}
use sakai.Python.Snapshots.Io.{
  IoKey, io_devices, PythonIoDeviceStat, from_io_device_stat, PythonIoWeight, from_io_weight,
  PythonIoDeviceMax, from_io_device_max,
}
use sakai.Unit.{Time, Float}
use sakai.Base.{map_ok}
use sakai.BTreeMap.{BTreeMap}
use sakai.Handle.{Kernel, Cgroup}
use sakai.Python.Errors.{PyResult, Interpreter, python_result}
use sakai.Io.Readers.{stat, pressure, weight, max, latency, cost_qos, cost_model, priority_class}

module _ (py : Interpreter) (k : Kernel) (f : Float) (cgroup : Cgroup k) where
  -- `IoReader::stat`
  unfoldable pub python_io_stat : PyResult (BTreeMap IoKey (PythonIoDeviceStat f))
  unfolding python_result stat io_devices from_io_device_stat
  python_io_stat = map_ok (io_devices from_io_device_stat) (python_result py (stat k f cgroup))

  -- `IoReader::pressure`
  unfoldable pub python_io_pressure : PyResult (PythonPressure f)
  unfolding python_result pressure from_pressure
  python_io_pressure = map_ok from_pressure (python_result py (pressure k f cgroup))

  -- `IoReader::weight`
  unfoldable pub python_io_weight : PyResult PythonIoWeight
  unfolding python_result weight from_io_weight
  python_io_weight = map_ok from_io_weight (python_result py (weight k f cgroup))

  -- `IoReader::max`
  unfoldable pub python_io_max : PyResult (BTreeMap IoKey (PythonIoDeviceMax f))
  unfolding python_result max io_devices from_io_device_max
  python_io_max = map_ok (io_devices from_io_device_max) (python_result py (max k f cgroup))

  -- `IoReader::latency`
  unfoldable pub python_io_latency : PyResult (BTreeMap IoKey Time)
  unfolding python_result latency io_devices
  python_io_latency = map_ok (io_devices (λ t. t.time)) (python_result py (latency k f cgroup))

  -- `IoReader::cost_qos`
  unfoldable pub python_io_cost_qos : PyResult (BTreeMap IoKey (PythonIoDeviceCostQos f))
  unfolding python_result cost_qos io_devices from_cost_qos
  python_io_cost_qos = map_ok (io_devices from_cost_qos) (python_result py (cost_qos k f cgroup))

  -- `IoReader::cost_model`
  unfoldable pub python_io_cost_model : PyResult (BTreeMap IoKey PythonIoDeviceCostModel)
  unfolding python_result cost_model io_devices from_cost_model
  python_io_cost_model =
      map_ok (io_devices from_cost_model) (python_result py (cost_model k f cgroup))

  -- `IoReader::priority_class`
  unfoldable pub python_io_priority_class : PyResult Str
  unfolding python_result priority_class priority_name
  python_io_priority_class = map_ok priority_name (python_result py (priority_class k f cgroup))
