-- ===== src/Decode.antt =====
-- The encodings of sakai/src/parse/mod.rs: what `ParseCgroup<Unit>::parse_cgroup` makes of one
-- field's text. A decoder stands for an implementation of that trait.
pub mod Sound
pub mod Exact
use sakai.Base.{
  leb, ◌==◌, if◌then◌else◌, Result, ok, err, ◌>>=◌, ◌>>◌, map_ok, map_err, ok_or, ℕ, ◌*◌, Bool,
  true, false, ◌&&◌, Option, none, some,
}
use sakai.Error.{ParseValueError, integer, float, out_of_range, invalid, Parsed}
use sakai.Num.{ℤ, parse_unsigned, parse_signed, u8_max, u64_max}
use sakai.Str.{Str, codes, str_eq}
use sakai.Unit.{
  Time, Bytes, Count, Pages, NonZeroTime, try_new_time, MaxOr, max_token, value, Float,
}

abbrev pub Decoder {ℓ} : Type ℓ → Type ℓ
Decoder T = Str → Result ParseValueError T

-- `ParseCgroup::parse_field`
unfoldable pub parse_field {ℓ} : {T : Type ℓ} → Decoder T → Str → Str → Str → Parsed T
unfolding invalid
parse_field decode raw field text = map_err (invalid raw field text) (decode text)

-- `value.parse::<uN>()?`
unfoldable pub unsigned : ℕ → Decoder ℕ
unfolding parse_unsigned
unsigned limit text = map_err integer (parse_unsigned limit text)

-- `value.parse::<iN>()?`
unfoldable pub signed : ℕ → Decoder ℤ
unfolding parse_signed
signed limit text = map_err integer (parse_signed limit text)

unfoldable pub parse_boolean : Decoder Bool
unfolding unsigned
parse_boolean text = do
  n ← unsigned u8_max text
  if n == 0 then ok false else if n == 1 then ok true else err out_of_range

unfoldable pub parse_count : Decoder Count
unfolding unsigned
parse_count text = do n ← unsigned u64_max text; ok (record { count = n })

unfoldable pub parse_pages : Decoder Pages
unfolding unsigned
parse_pages text = do n ← unsigned u64_max text; ok (record { pages = n })

unfoldable pub parse_bytes : Decoder Bytes
unfolding unsigned
parse_bytes text = do n ← unsigned u64_max text; ok (record { bytes = n })

-- `u64::checked_mul`
abbrev pub checked_mul : ℕ → ℕ → Option ℕ
checked_mul a b = if leb (a * b) u64_max then some (a * b) else none

unfoldable pub scaled_time : ℕ → Decoder Time
unfolding unsigned
scaled_time factor text = do
  n ← unsigned u64_max text
  nanoseconds ← ok_or (checked_mul n factor) out_of_range
  ok (record { nanoseconds = nanoseconds })

unfoldable pub parse_microseconds : Decoder Time
unfolding scaled_time
parse_microseconds = scaled_time 1000

unfoldable pub parse_nonzero_microseconds : Decoder NonZeroTime
unfolding parse_microseconds try_new_time
parse_nonzero_microseconds text = do
  time ← parse_microseconds text
  ok_or (try_new_time time) out_of_range

-- `ParseCgroup<Unit> for MaxOr<T>`
unfoldable pub max_or {ℓ} : {T : Type ℓ} → Decoder T → Decoder (MaxOr T)
unfolding str_eq
max_or decode text = if str_eq text (codes "max") then ok max_token else map_ok value (decode text)

-- `Percent::try_new`, `ScalingPercent::try_new` and the like: finite and within bounds.
module _ (f : Float) where
  open f use {F64, Ratio, parse_float, is_finite, le_float, from_nat, percent}

  unfoldable pub float_value : Decoder F64
  float_value text = map_err float (parse_float text)

  unfoldable pub percent_within : ℕ → ℕ → Decoder Ratio
  unfolding float_value
  percent_within low high text = do
    x ← float_value text
    if is_finite x && le_float (from_nat low) x && le_float x (from_nat high)
        then ok (percent x)
        else err out_of_range

  unfoldable pub parse_percent : Decoder Ratio
  unfolding percent_within
  parse_percent = percent_within 0 100
