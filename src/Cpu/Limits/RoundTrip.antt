-- ===== src/Cpu/Limits/RoundTrip.antt =====
-- Files of the CPU limits as the kernel prints them, and what the parsers refuse.
use sakai.Base.{ok, ℕ, ◌*◌, ◌≤◌, ◌<◌, ◌≡◌, refl, ap, ◌∙◌, [], ◌∷◌, ◌++◌}
use sakai.Num.{u64_max, print}
use sakai.Decode.{parse_nonzero_microseconds, max_or}
use sakai.Decode.Sound.{parse_nonzero-print, max_or-print, max_or-max}
use sakai.Str.{Str, codes, is_ascii_whitespace, is_whitespace, split, split_ascii_whitespace}
use sakai.Str.Tokens.{split_ascii_whitespace-append}
use sakai.Words.{IsWord, IsWord-IsToken, print-IsWord}
use sakai.Unit.{NonZeroTime, MaxOr, max_token, value}
use sakai.Parse.{new_parser, next_field, parse_line, parse_all}
use sakai.Cpu.Limits.{cpu_max_fields, parse_cpu_max}

abbrev micros : ℕ → NonZeroTime
micros n = record { time = record { nanoseconds = n * 1000 } }

-- What `cpu.max` shows of a quota in microseconds.
abbrev pub show_quota : MaxOr ℕ → Str
show_quota max_token = codes "max"
show_quota (value n) = print n

abbrev pub FitsQuota : MaxOr ℕ → Type 0
FitsQuota max_token = Unit
FitsQuota (value n) = (0 < n) × (n * 1000 ≤ u64_max)

abbrev pub quota_of : MaxOr ℕ → MaxOr NonZeroTime
quota_of max_token = max_token
quota_of (value n) = value (micros n)

abbrev pub show_cpu_max : MaxOr ℕ → ℕ → Str
show_cpu_max quota period = show_quota quota ++ b' ' ∷ (print period ++ b'\n' ∷ [])

show_quota-IsWord : (q : MaxOr ℕ) → IsWord (show_quota q)
show_quota-IsWord max_token = unfold is_whitespace in (refl, (refl, (refl, tt)))
show_quota-IsWord (value n) = print-IsWord n

decode_quota :
    (q : MaxOr ℕ) → FitsQuota q → max_or parse_nonzero_microseconds (show_quota q) ≡ ok (quota_of q)
decode_quota max_token h = max_or-max parse_nonzero_microseconds
decode_quota (value n) h =
    max_or-print parse_nonzero_microseconds n ∙ rw (parse_nonzero-print n h.0 h.1)

split_two :
    (k v : Str)
    → IsWord k
    → IsWord v
    → split_ascii_whitespace (k ++ b' ' ∷ (v ++ b'\n' ∷ [])) ≡ k ∷ v ∷ []
unfolding is_ascii_whitespace
split_two k v hk hv =
    split_ascii_whitespace-append k b' ' (v ++ b'\n' ∷ []) (IsWord-IsToken k hk) refl
    ∙ ap (◌∷◌ k) (
        split_ascii_whitespace-append v b'\n' [] (IsWord-IsToken v hv) refl
        ∙ ap (◌∷◌ v) (unfold split_ascii_whitespace split in refl))

-- `cpu.max` as the kernel prints it is read as its quota and period, in nanoseconds, for every
-- positive period and every quota that is `max` or positive, as far as they fit in 64 bits.
pub parse_cpu_max-show :
    (quota : MaxOr ℕ) (period : ℕ)
    → FitsQuota quota
    → 0 < period
    → period * 1000 ≤ u64_max
    → parse_cpu_max (show_cpu_max quota period)
      ≡ ok (record { quota = quota_of quota; period = micros period })
parse_cpu_max-show quota period fits p h =
    unfold parse_cpu_max parse_all parse_line new_parser cpu_max_fields next_field in
    rw (split_two (show_quota quota) (print period) (show_quota-IsWord quota) (print-IsWord period))
      (rw (decode_quota quota fits) (rw (parse_nonzero-print period p h)))
