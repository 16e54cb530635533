-- ===== src/Num.antt =====
-- The integer parsers and the decimal printer of Rust's standard library, which the crate calls on
-- every number: `str::parse::<uN>`, `str::parse::<iN>` and `Display`.
pub mod Value
pub mod Print
pub mod Exact
use sakai.Base.{
  ltb, leb, ◌==◌, if◌then◌else◌, Result, ok, err, map_ok, ℕ, zero, suc, ◌+◌, ◌-◌, ◌*◌, ◌/◌, ◌%◌,
  ◌^◌, Bool, true, false, ◌&&◌, ◌||◌, [], ◌∷◌,
}
use sakai.Str.{Str}

-- `std::num::IntErrorKind`, those that a parse returns.
pub data IntErrorKind : Type 0 where
  empty invalid_digit pos_overflow neg_overflow : IntErrorKind

-- A signed integer: `negsuc n` is -(n + 1).
pub data ℤ : Type 0 where
  pos : ℕ → ℤ
  negsuc : ℕ → ℤ

unfoldable pub is_digit : ℕ → Bool
is_digit c = leb b'0' c && leb c b'9'

-- The loop over the digits; a bad digit is refused before the overflow that it would cause.
unfoldable pub scan : ℕ → IntErrorKind → Str → ℕ → Result IntErrorKind ℕ
unfolding is_digit
scan limit overflow [] n = ok n
scan limit overflow (c ∷ s) n =
    let rest = scan limit overflow s (n * 10 + (c - b'0')) in
    if is_digit c
    then (if ltb limit (n * 10 + (c - b'0')) then err overflow else rest)
    else err invalid_digit

-- `str::parse` of the unsigned type whose greatest value is `limit`: one plus sign is accepted.
unfoldable pub parse_unsigned : ℕ → Str → Result IntErrorKind ℕ
unfolding scan
parse_unsigned limit [] = err empty
parse_unsigned limit (c ∷ []) =
    if c == b'+' || c == b'-' then err invalid_digit else scan limit pos_overflow (c ∷ []) 0
parse_unsigned limit (c ∷ d ∷ s) =
    if c == b'+' then scan limit pos_overflow (d ∷ s) 0 else scan limit pos_overflow (c ∷ d ∷ s) 0

unfoldable pub negate : ℕ → ℤ
negate zero = pos zero
negate (suc n) = negsuc n

-- `str::parse` of the signed type from -(limit + 1) to limit.
unfoldable pub parse_signed : ℕ → Str → Result IntErrorKind ℤ
unfolding scan negate
parse_signed limit [] = err empty
parse_signed limit (c ∷ []) =
    if c == b'+' || c == b'-'
    then err invalid_digit
    else map_ok pos (scan limit pos_overflow (c ∷ []) 0)
parse_signed limit (c ∷ d ∷ s) =
    if c == b'+'
    then map_ok pos (scan limit pos_overflow (d ∷ s) 0)
    else if c == b'-'
    then map_ok negate (scan (limit + 1) neg_overflow (d ∷ s) 0)
    else map_ok pos (scan limit pos_overflow (c ∷ d ∷ s) 0)

abbrev pub u8_max : ℕ
u8_max = 2 ^ 8 - 1

abbrev pub u16_max : ℕ
u16_max = 2 ^ 16 - 1

abbrev pub u32_max : ℕ
u32_max = 2 ^ 32 - 1

abbrev pub u64_max : ℕ
u64_max = 2 ^ 64 - 1

abbrev pub i8_max : ℕ
i8_max = 2 ^ 7 - 1

abbrev pub i32_max : ℕ
i32_max = 2 ^ 31 - 1

-- The digits of `n` in front of `out`; each round divides by ten, so a fuel above `n` is enough.
unfoldable pub emit : ℕ → ℕ → Str → Str
emit zero n out = out
emit (suc fuel) n out = elim (ltb n 10) [
  | true ↦ (b'0' + n) ∷ out
  | false ↦ emit fuel (n / 10) ((b'0' + n % 10) ∷ out)
]

-- `Display` of an unsigned integer.
unfoldable pub print : ℕ → Str
unfolding emit
print n = emit (n + 1) n []
