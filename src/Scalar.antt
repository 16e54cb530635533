-- ===== src/Scalar.antt =====
-- sakai/src/scalar.rs: the interfaces that hold a single value, and the snapshot of each.
pub mod Names
pub mod Readers
use sakai.Base.{ok, ◌>>=◌, ◌>>◌, Bool}
use sakai.Decode.{
  Decoder, parse_boolean, parse_count, parse_bytes, parse_microseconds, max_or, parse_percent,
}
use sakai.Error.{Parsed}
use sakai.Str.{Str, codes}
use sakai.Unit.{Time, Bytes, Count, MaxOr, Float}
use sakai.Parse.{single}

-- The markers of the module `interface`.
pub data Interface : Type 0 where
  cgroup_freeze cgroup_max_depth cgroup_max_descendants cgroup_pressure : Interface
  pids_current pids_peak pids_max : Interface
  memory_oom_group memory_current memory_peak memory_max memory_high memory_low memory_min :
      Interface
  swap_current swap_peak swap_max swap_high zswap_current zswap_max zswap_writeback : Interface
  cpu_idle cpu_max_burst cpu_uclamp_min cpu_uclamp_max : Interface

-- `Interface::FIELD`
unfoldable pub field_name : Interface → Str
field_name cgroup_freeze = codes "freeze"
field_name cgroup_max_depth = codes "depth"
field_name cgroup_max_descendants = codes "descendants"
field_name cgroup_pressure = codes "pressure"
field_name pids_current = codes "current"
field_name pids_peak = codes "peak"
field_name pids_max = codes "max"
field_name memory_oom_group = codes "oom.group"
field_name memory_current = codes "current"
field_name memory_peak = codes "peak"
field_name memory_max = codes "max"
field_name memory_high = codes "high"
field_name memory_low = codes "low"
field_name memory_min = codes "min"
field_name swap_current = codes "current"
field_name swap_peak = codes "peak"
field_name swap_max = codes "max"
field_name swap_high = codes "high"
field_name zswap_current = codes "current"
field_name zswap_max = codes "max"
field_name zswap_writeback = codes "writeback"
field_name cpu_idle = codes "idle"
field_name cpu_max_burst = codes "burst"
field_name cpu_uclamp_min = codes "utilization"
field_name cpu_uclamp_max = codes "utilization"

-- `Interface::FILE_NAME`
unfoldable pub file_name : Interface → Str
file_name cgroup_freeze = codes "cgroup.freeze"
file_name cgroup_max_depth = codes "cgroup.max.depth"
file_name cgroup_max_descendants = codes "cgroup.max.descendants"
file_name cgroup_pressure = codes "cgroup.pressure"
file_name pids_current = codes "pids.current"
file_name pids_peak = codes "pids.peak"
file_name pids_max = codes "pids.max"
file_name memory_oom_group = codes "memory.oom.group"
file_name memory_current = codes "memory.current"
file_name memory_peak = codes "memory.peak"
file_name memory_max = codes "memory.max"
file_name memory_high = codes "memory.high"
file_name memory_low = codes "memory.low"
file_name memory_min = codes "memory.min"
file_name swap_current = codes "memory.swap.current"
file_name swap_peak = codes "memory.swap.peak"
file_name swap_max = codes "memory.swap.max"
file_name swap_high = codes "memory.swap.high"
file_name zswap_current = codes "memory.zswap.current"
file_name zswap_max = codes "memory.zswap.max"
file_name zswap_writeback = codes "memory.zswap.writeback"
file_name cpu_idle = codes "cpu.idle"
file_name cpu_max_burst = codes "cpu.max.burst"
file_name cpu_uclamp_min = codes "cpu.uclamp.min"
file_name cpu_uclamp_max = codes "cpu.uclamp.max"

-- The implementations of `ScalarValue`, which choose the encoding of a value by its type.
pub data ScalarValue : Type 0 where
  bool bytes count time ratio : ScalarValue
  or_max : ScalarValue → ScalarValue

-- The value type of each interface, from the aliases in the controllers' modules.
unfoldable pub value_of : Interface → ScalarValue
value_of cgroup_freeze = bool
value_of cgroup_max_depth = or_max count
value_of cgroup_max_descendants = or_max count
value_of cgroup_pressure = bool
value_of pids_current = count
value_of pids_peak = count
value_of pids_max = or_max count
value_of memory_oom_group = bool
value_of memory_current = bytes
value_of memory_peak = bytes
value_of memory_max = or_max bytes
value_of memory_high = or_max bytes
value_of memory_low = or_max bytes
value_of memory_min = or_max bytes
value_of swap_current = bytes
value_of swap_peak = bytes
value_of swap_max = or_max bytes
value_of swap_high = or_max bytes
value_of zswap_current = bytes
value_of zswap_max = or_max bytes
value_of zswap_writeback = bool
value_of cpu_idle = bool
value_of cpu_max_burst = time
value_of cpu_uclamp_min = ratio
value_of cpu_uclamp_max = or_max ratio

module _ (f : Float) where
  abbrev pub Value : ScalarValue → Type 0
  Value bool = Bool
  Value bytes = Bytes
  Value count = Count
  Value time = Time
  Value ratio = f.Ratio
  Value (or_max v) = MaxOr (Value v)

  -- `ScalarValue::Encoding`, as the decoder that it selects.
  unfoldable pub decoder : (v : ScalarValue) → Decoder (Value v)
  unfolding parse_boolean parse_bytes parse_count parse_microseconds parse_percent max_or
  decoder bool = parse_boolean
  decoder bytes = parse_bytes
  decoder count = parse_count
  decoder time = parse_microseconds
  decoder ratio = parse_percent f
  decoder (or_max v) = max_or (decoder v)

  -- `Scalar<T, I>`
  pub record Scalar (v : ScalarValue) (i : Interface) : Type 0 where
    pub snapshot : Value v

  -- `FromStr for Scalar<T, I>`
  unfoldable pub parse_scalar : (v : ScalarValue) (i : Interface) → Str → Parsed (Scalar v i)
  unfolding single decoder field_name
  parse_scalar v i contents = do
    x ← single (decoder v) contents (field_name i)
    ok (record { snapshot = x })
