-- ===== src/Decode/Sound.antt =====
-- What the decoders accept.
use sakai.Base.{
  leb, if◌then◌else◌, All, ok, err, map_ok, ℕ, ◌*◌, ◌≤◌, ◌<◌, ◌≡◌, refl, ◌∙◌, false, [], ◌∷◌, arith,
}
use sakai.Num.{is_digit, u64_max, print}
use sakai.Num.Print.{print-All, parse_unsigned-print}
use sakai.Num.Value.{IsDigit}
use sakai.Decode.{
  Decoder, unsigned, parse_count, parse_bytes, scaled_time, parse_microseconds,
  parse_nonzero_microseconds, max_or,
}
use sakai.Error.{ParseValueError, out_of_range}
use sakai.Str.{Str, codes, str_eq}
use sakai.Unit.{MaxOr, max_token}

-- A time is the number of its file times the factor of its unit, and a product that does not fit in
-- 64 bits is refused: it is never wrapped around.
pub scaled_time-unsigned :
    (factor : ℕ) (text : Str) (n : ℕ)
    → unsigned u64_max text ≡ ok n
    → scaled_time factor text ≡ (
        if leb (n * factor) u64_max
        then ok (record { nanoseconds = n * factor })
        else err out_of_range)
unfolding scaled_time
scaled_time-unsigned factor text n h = rw h (ground arith)

pub scaled_time-err :
    (factor : ℕ) (text : Str) (e : ParseValueError)
    → unsigned u64_max text ≡ err e
    → scaled_time factor text ≡ err e
unfolding scaled_time
scaled_time-err factor text e h = rw h

pub unsigned-print : (limit n : ℕ) → n ≤ limit → unsigned limit (print n) ≡ ok n
unfolding unsigned
unsigned-print limit n h = rw (parse_unsigned-print limit n h)

-- A time of whole microseconds is read back from their number.
pub parse_microseconds-print :
    (n : ℕ)
    → n * 1000 ≤ u64_max
    → parse_microseconds (print n) ≡ ok (record { nanoseconds = n * 1000 })
unfolding parse_microseconds
parse_microseconds-print n h =
    scaled_time-unsigned 1000 (print n) n (unsigned-print u64_max n (omega arith)) ∙ ground arith

pub parse_count-print : (n : ℕ) → n ≤ u64_max → parse_count (print n) ≡ ok (record { count = n })
unfolding parse_count
parse_count-print n h = rw (unsigned-print u64_max n h)

pub parse_bytes-print : (n : ℕ) → n ≤ u64_max → parse_bytes (print n) ≡ ok (record { bytes = n })
unfolding parse_bytes
parse_bytes-print n h = rw (unsigned-print u64_max n h)

pub parse_nonzero-print :
    (n : ℕ)
    → 0 < n
    → n * 1000 ≤ u64_max
    → parse_nonzero_microseconds (print n)
      ≡ ok (record { time = record { nanoseconds = n * 1000 } })
unfolding parse_nonzero_microseconds
parse_nonzero-print n p h = rw (parse_microseconds-print n h) (ground arith)

-- A number is not the token `max`.
digits-ne-max : (s : Str) → All IsDigit s → str_eq s (codes "max") ≡ false
unfolding is_digit str_eq
digits-ne-max [] h = refl
digits-ne-max (c ∷ s) h = ground arith

pub max_or-print {ℓ} :
    {T : Type ℓ} (decode : Decoder T) (n : ℕ)
    → max_or decode (print n) ≡ map_ok MaxOr.value (decode (print n))
unfolding max_or
max_or-print decode n = rw (digits-ne-max (print n) (print-All n))

pub max_or-max {ℓ} : {T : Type ℓ} (decode : Decoder T) → max_or decode (codes "max") ≡ ok max_token
unfolding max_or
max_or-max decode = refl
