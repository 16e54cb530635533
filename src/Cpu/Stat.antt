-- ===== src/Cpu/Stat.antt =====
-- `cpu.stat` and `cpu.stat.local`, sakai/src/cgroup/v2/cpu/stat.rs.
pub mod Bandwidth
use sakai.Base.{
  ◌==◌, if◌then◌else◌, ok, ◌>>=◌, ◌>>◌, map_ok, ℕ, ◌+◌, ◌-◌, ◌^◌, Bool, false, Option, none, some,
  List, [], ◌∷◌, map,
}
use sakai.Num.{ℤ, pos, negsuc, u64_max, i32_max}
use sakai.Decode.{Decoder, unsigned, signed, parse_microseconds}
use sakai.Error.{Parsed}
use sakai.Str.{Str, codes}
use sakai.Strum.{from_name}
use sakai.Unit.{Time, Count}
use sakai.Parse.{KeyedFields, keyed_fields, contains_any, required, optional}

pub record CpuTimeStat : Type 0 where
  pub usage : Time
  pub user : Time
  pub system : Time
  pub nice : Option Time
  pub force_idle : Option Time

pub record CpuBurstStat : Type 0 where
  pub nr_bursts : Count
  pub burst : Time

pub record CpuBandwidthStat : Type 0 where
  pub nr_periods : Count
  pub nr_throttled : Count
  pub throttled : Time
  pub burst : Option CpuBurstStat

pub record CpuStat : Type 0 where
  pub time : CpuTimeStat
  pub bandwidth : Option CpuBandwidthStat

pub record CpuStatLocal : Type 0 where
  pub throttled : Option Time

pub data CpuStatField : Type 0 where
  usage_usec user_usec system_usec nice_usec force_idle_usec nr_periods nr_throttled : CpuStatField
  throttled_usec nr_bursts burst_usec : CpuStatField

-- The names that `strum` derives.
unfoldable pub stat_name : CpuStatField → Str
stat_name usage_usec = codes "usage_usec"
stat_name user_usec = codes "user_usec"
stat_name system_usec = codes "system_usec"
stat_name nice_usec = codes "nice_usec"
stat_name force_idle_usec = codes "core_sched.force_idle_usec"
stat_name nr_periods = codes "nr_periods"
stat_name nr_throttled = codes "nr_throttled"
stat_name throttled_usec = codes "throttled_usec"
stat_name nr_bursts = codes "nr_bursts"
stat_name burst_usec = codes "burst_usec"

abbrev pub stat_fields : List CpuStatField
stat_fields =
    usage_usec ∷ user_usec ∷ system_usec ∷ nice_usec ∷ force_idle_usec ∷ nr_periods ∷ nr_throttled
    ∷ throttled_usec ∷ nr_bursts ∷ burst_usec ∷ []

-- A known key names its value in an error by itself, another is `value`.
unfoldable pub value_field : Str → Str
unfolding from_name stat_name
value_field key = elim (from_name stat_name stat_fields key) [
  | none ↦ codes "value"
  | some field ↦ stat_name field
]

-- `CpuStatField::fields`
unfoldable pub read_fields : Str → Parsed KeyedFields
unfolding keyed_fields value_field
read_fields raw = keyed_fields raw value_field

unfoldable pub bandwidth_fields : List Str
unfolding stat_name
bandwidth_fields =
    map stat_name (nr_periods ∷ nr_throttled ∷ throttled_usec ∷ nr_bursts ∷ burst_usec ∷ [])

unfoldable pub bandwidth_burst_fields : List Str
unfolding stat_name
bandwidth_burst_fields = map stat_name (nr_bursts ∷ burst_usec ∷ [])

-- `ParseCgroup<ParseBandwidthCount> for Count`: a negative number is an `i32` whose bits the kernel
-- printed with a sign, and is read as the `u32` of the same bits.
unfoldable pub i32_bits : ℤ → ℕ
i32_bits (pos n) = n
i32_bits (negsuc n) = 2 ^ 32 - (n + 1)

abbrev starts_with_minus : Str → Bool
starts_with_minus [] = false
starts_with_minus (c ∷ s) = c == b'-'

unfoldable pub parse_bandwidth_count : Decoder Count
unfolding signed unsigned i32_bits
parse_bandwidth_count text =
    if starts_with_minus text
    then (do n ← signed i32_max text; ok (record { count = i32_bits n }))
    else (do n ← unsigned u64_max text; ok (record { count = n }))

-- `CpuTimeStat::from_fields`
unfoldable pub time_stat : KeyedFields → Parsed CpuTimeStat
unfolding required optional parse_microseconds stat_name
time_stat fields = do
  usage ← required parse_microseconds fields (stat_name usage_usec)
  user ← required parse_microseconds fields (stat_name user_usec)
  system ← required parse_microseconds fields (stat_name system_usec)
  nice ← optional parse_microseconds fields (stat_name nice_usec)
  force_idle ← optional parse_microseconds fields (stat_name force_idle_usec)
  ok (record { usage = usage; user = user; system = system; nice = nice; force_idle = force_idle })

-- `CpuBurstStat::from_fields`
unfoldable pub burst_stat : KeyedFields → Parsed CpuBurstStat
unfolding required parse_bandwidth_count parse_microseconds stat_name
burst_stat fields = do
  bursts ← required parse_bandwidth_count fields (stat_name nr_bursts)
  burst ← required parse_microseconds fields (stat_name burst_usec)
  ok (record { nr_bursts = bursts; burst = burst })

-- `Some(from_fields(fields)?)` if a test passes, `None` if not.
abbrev pub when {ℓ} : {T : Type ℓ} → Bool → Parsed T → Parsed (Option T)
when test m = if test then map_ok some m else ok none

-- `CpuBandwidthStat::from_fields`
unfoldable pub bandwidth_stat : KeyedFields → Parsed CpuBandwidthStat
unfolding required contains_any burst_stat bandwidth_burst_fields
bandwidth_stat fields = do
  burst ← when (contains_any fields bandwidth_burst_fields) (burst_stat fields)
  periods ← required parse_bandwidth_count fields (stat_name nr_periods)
  throttled_periods ← required parse_bandwidth_count fields (stat_name nr_throttled)
  throttled ← required parse_microseconds fields (stat_name throttled_usec)
  ok (record {
    nr_periods = periods;
    nr_throttled = throttled_periods;
    throttled = throttled;
    burst = burst;
  })

unfoldable pub cpu_stat_of : KeyedFields → Parsed CpuStat
unfolding time_stat bandwidth_stat contains_any bandwidth_fields
cpu_stat_of fields = do
  time ← time_stat fields
  bandwidth ← when (contains_any fields bandwidth_fields) (bandwidth_stat fields)
  ok (record { time = time; bandwidth = bandwidth })

-- `FromStr for CpuStat`
unfoldable pub parse_cpu_stat : Str → Parsed CpuStat
unfolding read_fields cpu_stat_of
parse_cpu_stat contents = do fields ← read_fields contents; cpu_stat_of fields

-- `FromStr for CpuStatLocal`
unfoldable pub parse_cpu_stat_local : Str → Parsed CpuStatLocal
unfolding read_fields optional parse_microseconds
parse_cpu_stat_local contents = do
  fields ← read_fields contents
  throttled ← optional parse_microseconds fields (codes "throttled_usec")
  ok (record { throttled = throttled })

-- `FromStr for CpuTimeStat`
unfoldable pub parse_time_stat : Str → Parsed CpuTimeStat
unfolding read_fields time_stat
parse_time_stat contents = do fields ← read_fields contents; time_stat fields

-- `FromStr for CpuBandwidthStat`
unfoldable pub parse_bandwidth_stat : Str → Parsed CpuBandwidthStat
unfolding read_fields bandwidth_stat
parse_bandwidth_stat contents = do fields ← read_fields contents; bandwidth_stat fields

-- `FromStr for CpuBurstStat`
unfoldable pub parse_burst_stat : Str → Parsed CpuBurstStat
unfolding read_fields burst_stat
parse_burst_stat contents = do fields ← read_fields contents; burst_stat fields
