-- ===== src/Hugetlb/PageSize.antt =====
-- The page sizes in the names of the files, sakai/src/cgroup/v2/hugetlb.rs.
pub mod RoundTrip
use sakai.Base.{
  leb, ◌==◌, if◌then◌else◌, Result, ok, err, ℕ, zero, suc, ◌/◌, ◌%◌, ◌^◌, Bool, true, false, ◌&&◌,
  Option, none, some, ◌++◌,
}
use sakai.Decode.{checked_mul}
use sakai.Error.{out_of_range, invalid, Parsed}
use sakai.Num.{parse_unsigned, u64_max, print}
use sakai.Str.{Str, codes, str_eq, strip_suffix}

pub record PageSize : Type 0 where
  pub size : ℕ

abbrev pub kibibyte : ℕ
kibibyte = 2 ^ 10

abbrev pub mebibyte : ℕ
mebibyte = 2 ^ 20

abbrev pub gibibyte : ℕ
gibibyte = 2 ^ 30

-- Halves `n` as long as it is even: a power of two ends at one. A fuel above `n` is enough.
unfoldable pub power_of_two_below : ℕ → ℕ → Bool
power_of_two_below zero n = false
power_of_two_below (suc fuel) n =
    let half = power_of_two_below fuel (n / 2) in
    if n == 1 then true else if n % 2 == 0 then half else false

-- `u64::is_power_of_two`, which needs 64 rounds at most.
unfoldable pub is_power_of_two : ℕ → Bool
unfolding power_of_two_below
is_power_of_two n = power_of_two_below 64 n

-- `PageSize::try_new`, by the predicate of its declaration.
unfoldable pub try_new_size : ℕ → Option PageSize
unfolding is_power_of_two
try_new_size n = if leb 1024 n && is_power_of_two n then some (record { size = n }) else none

-- `Display for PageSize`
unfoldable pub show_size : PageSize → Str
unfolding print
show_size s =
    if leb gibibyte s.size
    then print (s.size / gibibyte) ++ codes "GB"
    else if leb mebibyte s.size
    then print (s.size / mebibyte) ++ codes "MB"
    else print (s.size / kibibyte) ++ codes "KB"

-- `PageSize::file_name`
unfoldable pub file_name : PageSize → Str → Str
unfolding show_size
file_name s suffix = codes "hugetlb." ++ (show_size s ++ (codes "." ++ suffix))

-- `Result::ok`
abbrev to_option {ℓ} : {E : Type 0} {A : Type ℓ} → Result E A → Option A
to_option (ok a) = some a
to_option (err e) = none

module _ (label : Str) where
  -- The closure `invalid`.
  abbrev bad_size {ℓ} : {T : Type ℓ} → Parsed T
  bad_size = err (invalid label (codes "page_size") label out_of_range)

  abbrev bytes_of : Option ℕ → ℕ → Option ℕ
  bytes_of none unit = none
  bytes_of (some n) unit = checked_mul n unit

  abbrev if_shown : Option PageSize → Parsed PageSize
  if_shown none = bad_size
  if_shown (some s) = if str_eq (show_size s) label then ok s else bad_size

  abbrev if_bytes : Option ℕ → Parsed PageSize
  if_bytes none = bad_size
  if_bytes (some bytes) = if_shown (try_new_size bytes)

  -- What follows the suffixes: the number, the multiplication, the predicate and the comparison with
  -- the label.
  unfoldable pub size_of : Str → ℕ → Parsed PageSize
  unfolding parse_unsigned try_new_size show_size str_eq invalid
  size_of number unit = if_bytes (bytes_of (to_option (parse_unsigned u64_max number)) unit)

  abbrev if_kibibytes : Option Str → Parsed PageSize
  if_kibibytes (some number) = size_of number kibibyte
  if_kibibytes none = bad_size

  abbrev if_mebibytes : Option Str → Parsed PageSize → Parsed PageSize
  if_mebibytes (some number) rest = size_of number mebibyte
  if_mebibytes none rest = rest

  abbrev if_gibibytes : Option Str → Parsed PageSize → Parsed PageSize
  if_gibibytes (some number) rest = size_of number gibibyte
  if_gibibytes none rest = rest

  -- `FromStr for PageSize`
  unfoldable pub parse_size : Parsed PageSize
  unfolding size_of strip_suffix
  parse_size = if_gibibytes (strip_suffix (codes "GB") label) (
      if_mebibytes (strip_suffix (codes "MB") label)
        (if_kibibytes (strip_suffix (codes "KB") label)))
