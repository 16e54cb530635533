-- ===== src/Io/Weights.antt =====
-- `io.weight`, `io.latency` and `io.max`: sakai/src/cgroup/v2/io/weight.rs, latency.rs and max.rs.
use sakai.Base.{filter, ok, ◌>>=◌, ok_or, collect, not, map}
use sakai.BTreeMap.{BTreeMap, from_iter}
use sakai.BTreeMap.Order.{str_ord}
use sakai.Cpu.Limits.{Weight, try_new_weight}
use sakai.Decode.{Decoder, parse_field, unsigned, parse_nonzero_microseconds, max_or}
use sakai.Error.{out_of_range, Parsed}
use sakai.Io.Device.{parse_device, parse_device_lines}
use sakai.Io.Device.Order.{Device, device_ord}
use sakai.Num.{u16_max, u64_max}
use sakai.Parse.{KeyedFields, keyed_fields, required}
use sakai.Str.{Str, codes, str_eq}
use sakai.Unit.{BytesPerSecond, OperationsPerSecond, NonZeroTime, MaxOr}

-- The weight of io/weight.rs is another type with the bounds of the CPU weight.
unfoldable pub decode_weight : Decoder Weight
unfolding unsigned try_new_weight
decode_weight text = do n ← unsigned u16_max text; ok_or (try_new_weight n) out_of_range

pub record IoWeight : Type 0 where
  pub default_weight : Weight
  pub devices : BTreeMap Device Weight

abbrev device_weight : Str → Str × Str → Parsed (Device × Weight)
device_weight contents (key, text) = do
  device ← parse_device contents key
  weight ← parse_field decode_weight contents (codes "weight") text
  ok (device, weight)

-- `FromStr for IoWeight`
unfoldable pub parse_io_weight : Str → Parsed IoWeight
unfolding keyed_fields required decode_weight parse_device parse_field str_eq from_iter
parse_io_weight contents = do
  fields ← keyed_fields contents (λ _. codes "weight")
  weight ← required decode_weight fields (codes "default")
  entries ← collect (
      map (device_weight contents)
        (filter (λ (entry : Str × Str). not (str_eq entry.0 (codes "default"))) fields.values))
  ok (record { default_weight = weight; devices = from_iter entries })

-- `FromStr for IoLatency`
unfoldable pub parse_io_latency : Str → Parsed (BTreeMap Device NonZeroTime)
unfolding parse_device_lines required parse_nonzero_microseconds
parse_io_latency contents =
    parse_device_lines contents
      (λ fields. required parse_nonzero_microseconds fields (codes "target"))

unfoldable pub parse_bandwidth : Decoder BytesPerSecond
unfolding unsigned
parse_bandwidth text = do n ← unsigned u64_max text; ok (record { bytes_per_second = n })

unfoldable pub parse_iops : Decoder OperationsPerSecond
unfolding unsigned
parse_iops text = do n ← unsigned u64_max text; ok (record { hertz = n })

pub record IoDeviceMax : Type 0 where
  pub read_bandwidth : MaxOr BytesPerSecond
  pub write_bandwidth : MaxOr BytesPerSecond
  pub read_iops : MaxOr OperationsPerSecond
  pub write_iops : MaxOr OperationsPerSecond

-- `IoDeviceMax::from_fields`
unfoldable pub device_max : KeyedFields → Parsed IoDeviceMax
unfolding required max_or parse_bandwidth parse_iops
device_max fields = do
  rbps ← required (max_or parse_bandwidth) fields (codes "rbps")
  wbps ← required (max_or parse_bandwidth) fields (codes "wbps")
  riops ← required (max_or parse_iops) fields (codes "riops")
  wiops ← required (max_or parse_iops) fields (codes "wiops")
  ok (record {
    read_bandwidth = rbps;
    write_bandwidth = wbps;
    read_iops = riops;
    write_iops = wiops;
  })

-- `FromStr for IoMax`
unfoldable pub parse_io_max : Str → Parsed (BTreeMap Device IoDeviceMax)
unfolding parse_device_lines device_max
parse_io_max contents = parse_device_lines contents device_max
