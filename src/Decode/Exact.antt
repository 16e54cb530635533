-- ===== src/Decode/Exact.antt =====
-- Which texts the decoders of numbers accept.
use sakai.Base.{
  leb, if◌then◌else◌, Bool-cases, Result, ok, err, map_err, Result-cases, ok-eq, ℕ, ◌*◌, ◌≤◌, ◌≡◌,
  sym, ap, ◌∙◌, ◌↔◌, ◌⊎◌, inl, inr, arith,
}
use sakai.Num.{IntErrorKind, parse_unsigned, u64_max}
use sakai.Num.Exact.{Spells, parse_unsigned_iff}
use sakai.Error.{ParseValueError, integer, out_of_range}
use sakai.Str.{Str}
use sakai.Unit.{Time}
use sakai.Decode.{unsigned, parse_microseconds}
use sakai.Decode.Sound.{scaled_time-unsigned, scaled_time-err}

unsigned_iff :
    (limit : ℕ) (text : Str) (n : ℕ) → (unsigned limit text ≡ ok n) ↔ (Spells text n × (n ≤ limit))
unsigned_iff limit text n = (
  λ h.
      (parse_unsigned_iff limit text n).0
        (without (parse_unsigned limit text) (unfold unsigned in h)),
  λ h. unfold unsigned in rw ((parse_unsigned_iff limit text n).1 h),
)
  where
    without : (r : Result IntErrorKind ℕ) → map_err integer r ≡ ok n → r ≡ ok n
    without (ok m) h = ap ok (ok-eq h)
    without (err e) h = cc

time_fits :
    (n : ℕ) (t : Time)
    → Path
        (Result ParseValueError Time)
        (if leb (n * 1000) u64_max
          then ok (record { nanoseconds = n * 1000 })
          else err out_of_range)
        (ok t)
    → (n * 1000 ≤ u64_max) × (t.nanoseconds ≡ n * 1000)
time_fits n t h = elim (Bool-cases (leb (n * 1000) u64_max)) [
  | inl fits ↦ (ground arith, ap (λ (x : Time). x.nanoseconds) (sym (ok-eq (rw fits at h))))
  | inr big ↦ cc (rw big at h)
]

-- A time in microseconds is accepted just when its text spells a number (digits, behind at most one plus
-- sign) whose thousandfold fits in 64 bits, and is that many nanoseconds: nothing is wrapped around, and
-- nothing that fits is refused.
pub parse_microseconds_iff :
    (text : Str) (t : Time)
    → (parse_microseconds text ≡ ok t)
      ↔ ((n : ℕ) × Spells text n × (n * 1000 ≤ u64_max) × (t.nanoseconds ≡ n * 1000))
unfolding parse_microseconds
parse_microseconds_iff text t = (forth (Result-cases (unsigned u64_max text)), back)
  where
    forth :
        ((n : ℕ) × (unsigned u64_max text ≡ ok n))
          ⊎ ((e : ParseValueError) × (unsigned u64_max text ≡ err e))
        → parse_microseconds text ≡ ok t
        → (n : ℕ) × Spells text n × (n * 1000 ≤ u64_max) × (t.nanoseconds ≡ n * 1000)
    forth (inl (n, e)) h =
        let (fits, same) = time_fits n t (sym (scaled_time-unsigned 1000 text n e) ∙ h) in
        (n, ((unsigned_iff u64_max text n).0 e).0, fits, same)
    forth (inr (x, e)) h = cc (scaled_time-err 1000 text x e)

    back :
        (n : ℕ) × Spells text n × (n * 1000 ≤ u64_max) × (t.nanoseconds ≡ n * 1000)
        → parse_microseconds text ≡ ok t
    back (n, spelt, fits, same) =
        scaled_time-unsigned 1000 text n ((unsigned_iff u64_max text n).1 (spelt, omega arith))
        ∙ ground arith
