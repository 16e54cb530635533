-- ===== src/Io/Stat.antt =====
-- `io.stat`, sakai/src/cgroup/v2/io/stat.rs.
use sakai.Base.{◌==◌, if◌then◌else◌, ok, err, ◌>>=◌, ok_or, ◌&&◌, Option, none, some}
use sakai.BTreeMap.{BTreeMap}
use sakai.Decode.{
  Decoder, unsigned, signed, parse_count, parse_bytes, scaled_time, parse_microseconds, max_or,
  float_value,
}
use sakai.Error.{out_of_range, Parsed}
use sakai.Io.Device.{parse_device_lines}
use sakai.Io.Device.Order.{Device, device_ord}
use sakai.Num.{ℤ, pos, negsuc, u64_max, i32_max}
use sakai.Parse.{KeyedFields, optional}
use sakai.Str.{Str, codes}
use sakai.Unit.{Time, Bytes, Count, MaxOr, Float}

pub record DelayUsage : Type 0 where
  pub usage : ℤ

-- `DelayUsage::try_new`: at least -1.
unfoldable pub try_new_delay : ℤ → Option DelayUsage
try_new_delay (pos n) = some (record { usage = pos n })
try_new_delay (negsuc n) = if n == 0 then some (record { usage = negsuc n }) else none

unfoldable pub decode_delay : Decoder DelayUsage
unfolding signed try_new_delay
decode_delay text = do n ← signed i32_max text; ok_or (try_new_delay n) out_of_range

unfoldable pub parse_nanoseconds : Decoder Time
unfolding unsigned
parse_nanoseconds text = do n ← unsigned u64_max text; ok (record { nanoseconds = n })

unfoldable pub parse_milliseconds : Decoder Time
unfolding scaled_time
parse_milliseconds = scaled_time 1000000

module _ (f : Float) where
  -- `CostPercent`: finite and not negative, without an upper bound.
  unfoldable pub parse_cost_percent : Decoder f.Ratio
  unfolding float_value
  parse_cost_percent text = do
    x ← float_value f text
    if f.is_finite x && f.le_float (f.from_nat 0) x then ok (f.percent x) else err out_of_range

  pub record IoDeviceStat : Type 0 where
    pub read_bytes : Option Bytes
    pub write_bytes : Option Bytes
    pub discard_bytes : Option Bytes
    pub read_operations : Option Count
    pub write_operations : Option Count
    pub discard_operations : Option Count
    pub delay_usage : Option DelayUsage
    pub delay : Option Time
    pub depth : Option (MaxOr Count)
    pub average_latency : Option Time
    pub latency_window : Option Time
    pub missed : Option Count
    pub total : Option Count
    pub cost_usage : Option Time
    pub cost_wait : Option Time
    pub cost_indebt : Option Time
    pub cost_indelay : Option Time
    pub cost_vrate : Option f.Ratio

  -- `IoDeviceStat::from_fields`
  unfoldable pub device_stat : KeyedFields → Parsed IoDeviceStat
  unfolding optional parse_bytes parse_count decode_delay parse_nanoseconds max_or
      parse_microseconds parse_milliseconds parse_cost_percent
  device_stat fields = do
    rbytes ← optional parse_bytes fields (codes "rbytes")
    wbytes ← optional parse_bytes fields (codes "wbytes")
    dbytes ← optional parse_bytes fields (codes "dbytes")
    rios ← optional parse_count fields (codes "rios")
    wios ← optional parse_count fields (codes "wios")
    dios ← optional parse_count fields (codes "dios")
    use_delay ← optional decode_delay fields (codes "use_delay")
    delay ← optional parse_nanoseconds fields (codes "delay_nsec")
    depth ← optional (max_or parse_count) fields (codes "depth")
    latency ← optional parse_microseconds fields (codes "avg_lat")
    window ← optional parse_milliseconds fields (codes "win")
    missed ← optional parse_count fields (codes "missed")
    total ← optional parse_count fields (codes "total")
    usage ← optional parse_microseconds fields (codes "cost.usage")
    wait ← optional parse_microseconds fields (codes "cost.wait")
    indebt ← optional parse_microseconds fields (codes "cost.indebt")
    indelay ← optional parse_microseconds fields (codes "cost.indelay")
    vrate ← optional parse_cost_percent fields (codes "cost.vrate")
    ok (record {
      read_bytes = rbytes;
      write_bytes = wbytes;
      discard_bytes = dbytes;
      read_operations = rios;
      write_operations = wios;
      discard_operations = dios;
      delay_usage = use_delay;
      delay = delay;
      depth = depth;
      average_latency = latency;
      latency_window = window;
      missed = missed;
      total = total;
      cost_usage = usage;
      cost_wait = wait;
      cost_indebt = indebt;
      cost_indelay = indelay;
      cost_vrate = vrate;
    })

  -- `FromStr for IoStat`
  unfoldable pub parse_io_stat : Str → Parsed (BTreeMap Device IoDeviceStat)
  unfolding parse_device_lines device_stat
  parse_io_stat contents = parse_device_lines contents device_stat
