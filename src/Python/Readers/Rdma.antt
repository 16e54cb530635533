-- ===== src/Python/Readers/Rdma.antt =====
-- The snapshots of sakai-python/src/linux/rdma.rs: a device is a tuple, a quantity wraps its value.
pub mod Methods
use sakai.Base.{ℕ, Option, map}
use sakai.BTreeMap.{BTreeMap, from_iter}
use sakai.BTreeMap.Keys.{on_entry, option_ord, pair_ord}
use sakai.BTreeMap.Order.{nat_ord, str_ord}
use sakai.Python.Limit.{PythonMaxOr, from_count}
use sakai.Rdma.Device.{RdmaDevice}
use sakai.Rdma.Files.{RdmaDeviceCurrent, RdmaDeviceMax, RdmaResourceEvents, RdmaDeviceEvents}
use sakai.Str.{Str}
use sakai.Unit.{Count, Float}

-- `DeviceKey`
abbrev pub RdmaKey : Type 0
RdmaKey = Str × Option ℕ

-- The name and the index of a device.
abbrev pub rdma_key : RdmaDevice → RdmaKey
rdma_key device = (device.name, device.index)

-- `devices` of sakai-python/src/linux/rdma.rs
unfoldable pub rdma_devices : {T O : Type 0} → (T → O) → BTreeMap RdmaDevice T → BTreeMap RdmaKey O
unfolding from_iter
rdma_devices convert values = from_iter (map (on_entry rdma_key convert) values)

pub record PythonRdmaDeviceCurrent : Type 0 where
  pub hca_handle : Count
  pub hca_object : Count

-- `From<CoreRdmaDeviceCurrent> for RdmaDeviceCurrent`
unfoldable pub from_device_current : RdmaDeviceCurrent → PythonRdmaDeviceCurrent
from_device_current v = record { hca_handle = v.handles; hca_object = v.objects }

pub record PythonRdmaDeviceMax (f : Float) : Type 0 where
  pub hca_handle : PythonMaxOr f
  pub hca_object : PythonMaxOr f

-- `From<CoreRdmaDeviceMax> for RdmaDeviceMax`
unfoldable pub from_device_max : {f : Float} → RdmaDeviceMax → PythonRdmaDeviceMax f
unfolding from_count
from_device_max v = record {
  hca_handle = from_count v.max_handles;
  hca_object = from_count v.max_objects;
}

pub record PythonRdmaResourceEvents : Type 0 where
  pub max : Count
  pub alloc_fail : Count

-- `From<CoreRdmaResourceEvents> for RdmaResourceEvents`
unfoldable pub from_resource_events : RdmaResourceEvents → PythonRdmaResourceEvents
from_resource_events v = record { max = v.max; alloc_fail = v.alloc_fail }

pub record PythonRdmaDeviceEvents : Type 0 where
  pub hca_handle : PythonRdmaResourceEvents
  pub hca_object : PythonRdmaResourceEvents

-- `From<CoreRdmaDeviceEvents> for RdmaDeviceEvents`
unfoldable pub from_device_events : RdmaDeviceEvents → PythonRdmaDeviceEvents
unfolding from_resource_events
from_device_events v = record {
  hca_handle = from_resource_events v.handle_events;
  hca_object = from_resource_events v.object_events;
}
