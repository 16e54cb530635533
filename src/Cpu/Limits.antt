-- ===== src/Cpu/Limits.antt =====
-- `cpu.max`, `cpu.weight` and `cpu.weight.nice`: sakai/src/cgroup/v2/cpu/max.rs, weight.rs and
-- weight_nice.rs.
pub mod RoundTrip
pub mod Ranges
use sakai.Base.{
  leb, ◌==◌, if◌then◌else◌, ok, ◌>>=◌, ◌>>◌, map_ok, ok_or, ℕ, ◌+◌, ◌/◌, ◌&&◌, Option, none, some,
}
use sakai.Num.{ℤ, pos, negsuc, u16_max, i8_max}
use sakai.Decode.{Decoder, unsigned, signed, parse_nonzero_microseconds, max_or}
use sakai.Error.{out_of_range, Parsed}
use sakai.Str.{Str, codes}
use sakai.Unit.{NonZeroTime, MaxOr, max_token, value, Float}
use sakai.Parse.{Step, next_field, parse_all, single}

pub record CpuMax : Type 0 where
  pub quota : MaxOr NonZeroTime
  pub period : NonZeroTime

unfoldable pub cpu_max_fields : Step CpuMax
unfolding next_field max_or parse_nonzero_microseconds
cpu_max_fields p = do
  (quota, p') ← next_field (max_or parse_nonzero_microseconds) (codes "quota") p
  (period, p'') ← next_field parse_nonzero_microseconds (codes "period") p'
  ok (record { quota = quota; period = period }, p'')

-- `FromStr for CpuMax`
unfoldable pub parse_cpu_max : Str → Parsed CpuMax
unfolding parse_all cpu_max_fields
parse_cpu_max contents = parse_all contents cpu_max_fields

-- `NonZeroTime::get::<microsecond>()`: whole microseconds of the stored nanoseconds.
abbrev microseconds : NonZeroTime → ℕ
microseconds t = t.time.nanoseconds / 1000

unfoldable pub cpu_count : (f : Float) → CpuMax → MaxOr f.Ratio
cpu_count f m = elim m.quota [
  | max_token ↦ max_token
  | value quota ↦
      value (
        f.ratio
          (f.div_float (f.from_nat (microseconds quota)) (f.from_nat (microseconds m.period))))
]

-- `Weight`, and `Weight::try_new` by the bounds of its declaration.
pub record Weight : Type 0 where
  pub weight : ℕ

unfoldable pub try_new_weight : ℕ → Option Weight
try_new_weight n = if leb 1 n && leb n 10000 then some (record { weight = n }) else none

pub data CpuWeight : Type 0 where
  idle : CpuWeight
  shares : Weight → CpuWeight

unfoldable pub decode_cpu_weight : Decoder CpuWeight
unfolding unsigned try_new_weight
decode_cpu_weight text = do
  n ← unsigned u16_max text
  if n == 0 then ok idle else map_ok shares (ok_or (try_new_weight n) out_of_range)

-- `FromStr for CpuWeight`
unfoldable pub parse_cpu_weight : Str → Parsed CpuWeight
unfolding single decode_cpu_weight
parse_cpu_weight contents = single decode_cpu_weight contents (codes "weight")

pub record Nice : Type 0 where
  pub nice : ℤ

-- `Nice::try_new`: from -20 to 19.
unfoldable pub try_new_nice : ℤ → Option Nice
try_new_nice (pos n) = if leb n 19 then some (record { nice = pos n }) else none
try_new_nice (negsuc n) = if leb (n + 1) 20 then some (record { nice = negsuc n }) else none

unfoldable pub decode_nice : Decoder Nice
unfolding signed try_new_nice
decode_nice text = do n ← signed i8_max text; ok_or (try_new_nice n) out_of_range

-- `FromStr for Nice`
unfoldable pub parse_nice : Str → Parsed Nice
unfolding single decode_nice
parse_nice contents = single decode_nice contents (codes "nice")
