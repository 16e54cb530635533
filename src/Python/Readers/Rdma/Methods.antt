-- ===== src/Python/Readers/Rdma/Methods.antt =====
-- `RdmaReader` of sakai-python/src/linux/rdma.rs.
use sakai.Base.{map_ok}
use sakai.BTreeMap.{BTreeMap}
use sakai.Handle.{Kernel, Cgroup}
use sakai.Python.Errors.{PyResult, Interpreter, python_result}
use sakai.Python.Readers.Rdma.{
  RdmaKey, rdma_devices, PythonRdmaDeviceCurrent, from_device_current, PythonRdmaDeviceMax,
  from_device_max, PythonRdmaDeviceEvents, from_device_events,
}
use sakai.Rdma.Readers.{current, max, peak, events, events_local}
use sakai.Unit.{Float}

module _ (py : Interpreter) (k : Kernel) (f : Float) (cgroup : Cgroup k) where
  -- `RdmaReader::current`
  unfoldable pub python_rdma_current : PyResult (BTreeMap RdmaKey PythonRdmaDeviceCurrent)
  unfolding python_result current rdma_devices from_device_current
  python_rdma_current =
      map_ok (rdma_devices from_device_current) (python_result py (current k cgroup))

  -- `RdmaReader::max`
  unfoldable pub python_rdma_max : PyResult (BTreeMap RdmaKey (PythonRdmaDeviceMax f))
  unfolding python_result max rdma_devices from_device_max
  python_rdma_max = map_ok (rdma_devices from_device_max) (python_result py (max k cgroup))

  -- `RdmaReader::peak`
  unfoldable pub python_rdma_peak : PyResult (BTreeMap RdmaKey PythonRdmaDeviceCurrent)
  unfolding python_result peak rdma_devices from_device_current
  python_rdma_peak = map_ok (rdma_devices from_device_current) (python_result py (peak k cgroup))

  -- `RdmaReader::events`
  unfoldable pub python_rdma_events : PyResult (BTreeMap RdmaKey PythonRdmaDeviceEvents)
  unfolding python_result events rdma_devices from_device_events
  python_rdma_events = map_ok (rdma_devices from_device_events) (python_result py (events k cgroup))

  -- `RdmaReader::events_local`
  unfoldable pub python_rdma_events_local : PyResult (BTreeMap RdmaKey PythonRdmaDeviceEvents)
  unfolding python_result events_local rdma_devices from_device_events
  python_rdma_events_local =
      map_ok (rdma_devices from_device_events) (python_result py (events_local k cgroup))
