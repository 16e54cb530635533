-- ===== src/Rdma/Files.antt =====
-- The contents of the RDMA files, sakai/src/cgroup/v2/rdma.rs.
use sakai.Base.{ok, err, ◌>>=◌, map_err, transpose, collect, ℕ, Option, List, [], ◌∷◌, map}
use sakai.BTreeMap.{BTreeMap, get, from_iter}
use sakai.BTreeMap.Order.{cmp_str, str_ord}
use sakai.Decode.{parse_count, max_or}
use sakai.Error.{integer, missing, invalid, Parsed}
use sakai.Io.Device.{equation}
use sakai.Num.{parse_unsigned, u32_max, i32_max}
use sakai.Parse.{KeyedFields, new_fields, required}
use sakai.Rdma.Device.{RdmaDevice, rdma_ord}
use sakai.Str.{Str, codes, split_ascii_whitespace, filled_lines}
use sakai.Unit.{Count, MaxOr, max_token, value}
use mathlib.Core.Option

pub record RdmaDeviceCurrent : Type 0 where
  pub handles : Count
  pub objects : Count

-- The closure `count`: `max` stands for the greatest `i32`.
unfoldable pub max_as_count : MaxOr Count → Count
max_as_count (value c) = c
max_as_count max_token = record { count = i32_max }

-- `RdmaDeviceCurrent::from_fields`
unfoldable pub device_current : KeyedFields → Parsed RdmaDeviceCurrent
unfolding required max_or parse_count max_as_count
device_current fields = do
  handles ← required (max_or parse_count) fields (codes "hca_handle")
  objects ← required (max_or parse_count) fields (codes "hca_object")
  ok (record { handles = max_as_count handles; objects = max_as_count objects })

pub record RdmaDeviceMax : Type 0 where
  pub max_handles : MaxOr Count
  pub max_objects : MaxOr Count

-- `RdmaDeviceMax::from_fields`
unfoldable pub device_limits : KeyedFields → Parsed RdmaDeviceMax
unfolding required max_or parse_count
device_limits fields = do
  handles ← required (max_or parse_count) fields (codes "hca_handle")
  objects ← required (max_or parse_count) fields (codes "hca_object")
  ok (record { max_handles = handles; max_objects = objects })

pub record RdmaResourceEvents : Type 0 where
  pub max : Count
  pub alloc_fail : Count

pub record RdmaDeviceEvents : Type 0 where
  pub handle_events : RdmaResourceEvents
  pub object_events : RdmaResourceEvents

-- `RdmaDeviceEvents::from_fields`
unfoldable pub device_events : KeyedFields → Parsed RdmaDeviceEvents
unfolding required parse_count
device_events fields = do
  handle_max ← required parse_count fields (codes "hca_handle.max")
  handle_fail ← required parse_count fields (codes "hca_handle.alloc_fail")
  object_max ← required parse_count fields (codes "hca_object.max")
  object_fail ← required parse_count fields (codes "hca_object.alloc_fail")
  ok (record {
    handle_events = record { max = handle_max; alloc_fail = handle_fail };
    object_events = record { max = object_max; alloc_fail = object_fail };
  })

-- The index of a device line, which not every kernel prints.
abbrev pub rdma_index : Str → KeyedFields → Parsed (Option ℕ)
rdma_index raw fields = transpose (
    Option.map
      (λ (text : Str).
        map_err (λ e. invalid raw (codes "index") text (integer e)) (parse_unsigned u32_max text))
      (get (codes "index") fields.values))

module _ {T : Type 0} (raw : Str) (parse : KeyedFields → Parsed T) where
  abbrev pub rdma_line : List Str → Parsed (RdmaDevice × T)
  rdma_line [] = err (missing raw (codes "device"))
  rdma_line (device ∷ tokens) = do
    fields ← new_fields raw (map (equation raw) tokens)
    index ← rdma_index raw fields
    v ← parse fields
    ok (record { name = device; index = index }, v)

  -- `parse_devices`
  unfoldable pub parse_rdma_devices : Parsed (BTreeMap RdmaDevice T)
  unfolding filled_lines split_ascii_whitespace new_fields equation get cmp_str parse_unsigned
      missing invalid from_iter
  parse_rdma_devices = do
    entries ← collect (map (λ line. rdma_line (split_ascii_whitespace line)) (filled_lines raw))
    ok (from_iter entries)

-- `FromStr for RdmaCurrent`
unfoldable pub parse_rdma_current : Str → Parsed (BTreeMap RdmaDevice RdmaDeviceCurrent)
unfolding parse_rdma_devices device_current
parse_rdma_current contents = parse_rdma_devices contents device_current

-- `FromStr for RdmaMax`
unfoldable pub parse_rdma_max : Str → Parsed (BTreeMap RdmaDevice RdmaDeviceMax)
unfolding parse_rdma_devices device_limits
parse_rdma_max contents = parse_rdma_devices contents device_limits

-- `FromStr for RdmaEvents`
unfoldable pub parse_rdma_events : Str → Parsed (BTreeMap RdmaDevice RdmaDeviceEvents)
unfolding parse_rdma_devices device_events
parse_rdma_events contents = parse_rdma_devices contents device_events
