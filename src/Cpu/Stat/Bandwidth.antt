-- ===== src/Cpu/Stat/Bandwidth.antt =====
-- The optional parts of `cpu.stat`, and the numbers that the kernel prints with a sign.
use sakai.Base.{
  any, Result, ok, err, map_ok, >>=-Passes, Result-cases, ℕ, zero, suc, ◌+◌, ◌-◌, ◌^◌, ◌≤◌, ◌<◌,
  ◌≡◌, refl, sym, ap, ◌∙◌, subst, inl, inr, Bool, true, false, ◌||◌, Option, none, some, List, [],
  ◌∷◌, arith,
}
use sakai.Parse.{KeyedFields, contains_any, required}
use sakai.Unit.{Count}
use sakai.Str.{Str, codes}
use sakai.Decode.{signed, parse_microseconds}
use sakai.Num.Print.{print-cons, scan-print}
use sakai.Num.{neg_overflow, scan, negate, parse_signed, i32_max, print}
use sakai.Error.{ParseValueError, Parsed}
use sakai.BTreeMap.{get, contains_key}
use sakai.BTreeMap.Order.{str_ord}
use sakai.Cpu.Stat.{
  CpuBandwidthStat, CpuStat, nr_periods, nr_throttled, throttled_usec, stat_name, read_fields,
  bandwidth_fields, bandwidth_burst_fields, i32_bits, parse_bandwidth_count, time_stat, burst_stat,
  when, bandwidth_stat, cpu_stat_of, parse_cpu_stat,
}

abbrev pub is_some {ℓ} : {A : Type ℓ} → Option A → Bool
is_some none = false
is_some (some a) = true

when-is_some :
    {T : Type 0} (test : Bool) (m : Parsed T) (o : Option T) → when test m ≡ ok o → is_some o ≡ test
when-is_some true (ok v) o h = ground arith
when-is_some true (err e) o h = cc
when-is_some false m o h = ground arith

-- Whether the map of a file's fields has a value under the key.
abbrev pub has : KeyedFields → Str → Bool
has fields key = is_some (get key fields.values)

-- Whether the file has one of the two fields of bursts.
abbrev pub has_burst : KeyedFields → Bool
has_burst fields = has fields (codes "nr_bursts") || has fields (codes "burst_usec")

-- Whether the file has one of the five fields that come with the bandwidth controller.
abbrev pub has_bandwidth : KeyedFields → Bool
has_bandwidth fields =
    has fields (codes "nr_periods")
    || (has fields (codes "nr_throttled")
        || (has fields (codes "throttled_usec") || has_burst fields))

-- Whether the snapshot has its optional parts is decided by the fields of the file.
abbrev pub FollowsFields : KeyedFields → Option CpuBandwidthStat → Type 0
FollowsFields fields none = has_bandwidth fields ≡ false
FollowsFields fields (some b) = (has_bandwidth fields ≡ true) × (is_some b.burst ≡ has_burst fields)

-- The tests of the code are these.
abbrev FollowsTests : KeyedFields → Option CpuBandwidthStat → Type 0
FollowsTests fields none = contains_any fields bandwidth_fields ≡ false
FollowsTests fields (some b) =
    (contains_any fields bandwidth_fields ≡ true)
    × (is_some b.burst ≡ contains_any fields bandwidth_burst_fields)

is_some_test :
    {A : Type 0} (o : Option A) → Path Bool (elim o [ none ↦ false | some v ↦ true ]) (is_some o)
is_some_test none = refl
is_some_test (some v) = refl

has_key : (fields : KeyedFields) (name : Str) → contains_key name fields.values ≡ has fields name
unfolding contains_key
has_key fields name = is_some_test (get name fields.values)

has_tests :
    (fields : KeyedFields) (names : List Str) → contains_any fields names ≡ any (has fields) names
unfolding contains_any
has_tests fields [] = refl
has_tests fields (name ∷ names) =
    rw (has_key fields name) (ap (has fields name ||◌) (has_tests fields names))

or_false : (a : Bool) → (a || false) ≡ a
or_false true = refl
or_false false = refl

burst_tests : (fields : KeyedFields) → contains_any fields bandwidth_burst_fields ≡ has_burst fields
burst_tests fields =
    has_tests fields bandwidth_burst_fields
    ∙ unfold bandwidth_burst_fields stat_name in
      ap (has fields (codes "nr_bursts") ||◌) (or_false (has fields (codes "burst_usec")))

bandwidth_tests :
    (fields : KeyedFields) → contains_any fields bandwidth_fields ≡ has_bandwidth fields
bandwidth_tests fields =
    has_tests fields bandwidth_fields
    ∙ unfold bandwidth_fields stat_name in
      ap
        (λ rest.
          has fields (codes "nr_periods")
          || (has fields (codes "nr_throttled")
              || (has fields (codes "throttled_usec") || (has fields (codes "nr_bursts") || rest))))
        (or_false (has fields (codes "burst_usec")))

-- The tests of the code are those of the names.
follows_names :
    (fields : KeyedFields) (o : Option CpuBandwidthStat)
    → FollowsTests fields o
    → FollowsFields fields o
follows_names fields none h = sym (bandwidth_tests fields) ∙ h
follows_names fields (some b) (h, k) = (sym (bandwidth_tests fields) ∙ h, k ∙ burst_tests fields)

bandwidth_stat-burst :
    (fields : KeyedFields) (b : CpuBandwidthStat)
    → bandwidth_stat fields ≡ ok b
    → is_some b.burst ≡ contains_any fields bandwidth_burst_fields
unfolding bandwidth_stat
bandwidth_stat-burst fields b h =
    let test = contains_any fields bandwidth_burst_fields in
    let (burst, e, h1) = >>=-Passes (when test (burst_stat fields)) _ h in
    let (periods, e1, h2) =
      >>=-Passes (required parse_bandwidth_count fields (stat_name nr_periods)) _ h1 in
    let (throttled_periods, e2, h3) =
      >>=-Passes (required parse_bandwidth_count fields (stat_name nr_throttled)) _ h2 in
    let (throttled, e3, h4) =
      >>=-Passes (required parse_microseconds fields (stat_name throttled_usec)) _ h3 in
    let same : burst ≡ b.burst = ground arith in
    subst (λ o. is_some o ≡ test) same (when-is_some test (burst_stat fields) burst e)

follows :
    (fields : KeyedFields) (test : Bool) (o : Option CpuBandwidthStat)
    → contains_any fields bandwidth_fields ≡ test
    → when test (bandwidth_stat fields) ≡ ok o
    → FollowsTests fields o
follows fields false none e h = e
follows fields false (some b) e h = cc
follows fields true none e h = elim (Result-cases (bandwidth_stat fields)) [
  | inl (b, k) ↦ cc (rw k at h)
  | inr (x, k) ↦ cc (rw k at h)
]
follows fields true (some b) e h =
    (e, bandwidth_stat-burst fields b (inner (bandwidth_stat fields) b h))
  where
    inner :
        (m : Parsed CpuBandwidthStat) (b : CpuBandwidthStat)
        → map_ok some m ≡ ok (some b)
        → m ≡ ok b
    inner (ok c) b h = ground arith
    inner (err x) b h = cc

-- An accepted `cpu.stat` has the bandwidth part just when one of `nr_periods`, `nr_throttled`,
-- `throttled_usec`, `nr_bursts` and `burst_usec` is in the file, and the burst part within it just when
-- one of the last two is.
pub parse_cpu_stat-FollowsFields :
    (contents : Str) (fields : KeyedFields) (stat : CpuStat)
    → read_fields contents ≡ ok fields
    → parse_cpu_stat contents ≡ ok stat
    → FollowsFields fields stat.bandwidth
unfolding parse_cpu_stat cpu_stat_of
parse_cpu_stat-FollowsFields contents fields stat read h =
    let test = contains_any fields bandwidth_fields in
    let (time, e, h1) = >>=-Passes (time_stat fields) _ (rw read at h) in
    let (bandwidth, e1, h2) = >>=-Passes (when test (bandwidth_stat fields)) _ h1 in
    let same : bandwidth ≡ stat.bandwidth = ground arith in
    follows_names fields stat.bandwidth
      (subst (FollowsTests fields) same (follows fields test bandwidth refl e1))

parse_signed-minus :
    (n : ℕ) → n ≤ i32_max + 1 → parse_signed i32_max (b'-' ∷ print n) ≡ ok (negate n)
parse_signed-minus n fits =
    let (c, s, e) = print-cons n in
    let scanned = scan-print (i32_max + 1) neg_overflow n fits in
    rw e (minus c s n (rw e at scanned))
  where
    minus :
        (c : ℕ) (s : Str) (n : ℕ)
        → scan (i32_max + 1) neg_overflow (c ∷ s) 0 ≡ ok n
        → parse_signed i32_max (b'-' ∷ c ∷ s) ≡ ok (negate n)
    minus c s n h = unfold parse_signed in rw h

signed-minus : (n : ℕ) → n ≤ i32_max + 1 → signed i32_max (b'-' ∷ print n) ≡ ok (negate n)
unfolding signed
signed-minus n fits = rw (parse_signed-minus n fits)

-- A count that the kernel printed as a negative number of 32 bits is read as the unsigned number of the
-- same bits, which is 2 ^ 32 less the number behind the sign.
pub parse_bandwidth_count-minus :
    (n : ℕ)
    → 0 < n
    → n ≤ 2 ^ 31
    → parse_bandwidth_count (b'-' ∷ print n) ≡ ok (record { count = 2 ^ 32 - n })
parse_bandwidth_count-minus n positive fits =
    unfold parse_bandwidth_count in rw (signed-minus n (omega arith)) (bits n positive)
  where
    bits :
        (n : ℕ)
        → 0 < n
        → Path
            (Result ParseValueError Count)
            (ok (record { count = i32_bits (negate n) }))
            (ok (record { count = 2 ^ 32 - n }))
    bits zero h = absurd (omega arith)
    bits (suc n) h = unfold negate i32_bits in ground arith
