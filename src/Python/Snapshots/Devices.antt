-- ===== src/Python/Snapshots/Devices.antt =====
-- The maps of devices of sakai-python/src/linux/io.rs and rdma.rs hold every device of the crate's.
use sakai.BTreeMap.{BTreeMap}
use sakai.BTreeMap.Keys.{on_entry, from_iter-on_entry, option_ord, pair_ord}
use sakai.BTreeMap.Laws.{IsAscending}
use sakai.BTreeMap.Order.{nat_ord, str_ord}
use sakai.Io.Device.Order.{Device, device_ord}
use sakai.Python.Readers.Rdma.{rdma_key, rdma_devices}
use sakai.Python.Snapshots.Io.{io_key, io_devices}
use sakai.Rdma.Device.{RdmaDevice, rdma_ord}
use sakai.Base.{◌≡◌, refl, map}

-- Tuples compare as the devices do, so that no two devices meet and the order stays.
pub io_devices-entries :
    {T O : Type 0} (convert : T → O) (m : BTreeMap Device T)
    → IsAscending m
    → io_devices convert m ≡ map (on_entry io_key convert) m
unfolding io_devices
io_devices-entries convert m a = from_iter-on_entry io_key convert (λ a b. refl) m a

pub rdma_devices-entries :
    {T O : Type 0} (convert : T → O) (m : BTreeMap RdmaDevice T)
    → IsAscending m
    → rdma_devices convert m ≡ map (on_entry rdma_key convert) m
unfolding rdma_devices
rdma_devices-entries convert m a = from_iter-on_entry rdma_key convert (λ a b. refl) m a
