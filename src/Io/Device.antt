-- ===== src/Io/Device.antt =====
-- Block devices and the files of a line for each device, sakai/src/cgroup/v2/io/mod.rs.
pub mod Order
pub mod RoundTrip
pub mod Lines
use sakai.Base.{ok, err, ◌>>=◌, ◌>>◌, map_err, ok_or, collect, ℕ, List, [], ◌∷◌, map}
use sakai.BTreeMap.{BTreeMap, from_iter}
use sakai.BTreeMap.Order.{str_ord}
use sakai.Error.{integer, out_of_range, missing, invalid, Parsed}
use sakai.Num.{parse_unsigned, u32_max}
use sakai.Str.{Str, codes, split_ascii_whitespace, filled_lines, split_once}
use sakai.Parse.{KeyedFields, new_fields}
use sakai.Io.Device.Order.{Device, device_ord}

abbrev device_part : Str → Str → Str → Parsed ℕ
device_part raw text part =
    map_err (λ e. invalid raw (codes "device") text (integer e)) (parse_unsigned u32_max part)

-- `Device::parse`
unfoldable pub parse_device : Str → Str → Parsed Device
unfolding split_once parse_unsigned invalid
parse_device raw text = do
  (major, minor) ← ok_or (split_once b':' text) (invalid raw (codes "device") text out_of_range)
  major_id ← device_part raw text major
  minor_id ← device_part raw text minor
  ok (record { major = major_id; minor = minor_id })

-- `FromStr for Device`
unfoldable pub device_from_str : Str → Parsed Device
unfolding parse_device
device_from_str text = parse_device text text

-- `token.split_once('=')`, or the error that names the token.
unfoldable pub equation : Str → Str → Parsed (Str × Str)
unfolding split_once invalid
equation raw token = ok_or (split_once b'=' token) (invalid raw (codes "value") token out_of_range)

module _ {T : Type 0} (raw : Str) (parse : KeyedFields → Parsed T) where
  abbrev with_device : List Str → Device → Parsed (Device × T)
  with_device [] device = err (missing raw (codes "value"))
  with_device (t ∷ ts) device = do
    fields ← new_fields raw (map (equation raw) (t ∷ ts))
    v ← parse fields
    ok (device, v)

  abbrev of_line : List Str → Parsed (Device × T)
  of_line [] = err (missing raw (codes "device"))
  of_line (name ∷ tokens) = do device ← parse_device raw name; with_device tokens device

  -- `Device::parse_lines`
  unfoldable pub parse_device_lines : Parsed (BTreeMap Device T)
  unfolding filled_lines split_ascii_whitespace parse_device equation new_fields missing from_iter
  parse_device_lines = do
    entries ← collect (map (λ line. of_line (split_ascii_whitespace line)) (filled_lines raw))
    ok (from_iter entries)
