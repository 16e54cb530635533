-- ===== src/Examples/Files.antt =====
-- The general parsers at work: files of one value, of keys and values, and names.
use sakai.Base.{
  leb, if◌then◌else◌, Result, ok, err, ℕ, ◌*◌, ◌≡◌, refl, true, none, some, [], ◌∷◌, arith,
}
use sakai.Pressure.RoundTrip.{Shown, Reads, pressure_file, parse_pressure-pressure_file}
use sakai.Pressure.{PressureLine, parse_pressure}
use sakai.Unit.{Count, MaxOr, max_token, value, Float}
use sakai.BTreeMap.Laws.{IsAscending}
use sakai.Words.{IsWord, is_word-IsWord}
use sakai.Memory.CountsField.{pgfault, count_ord}
use sakai.Memory.PagesField.{page_ord}
use sakai.Memory.BytesField.{anon, file, byte_ord}
use sakai.Memory.Stat.Baseline.{IsOrdered, parse_memory_stat-baseline}
use sakai.Memory.Stat.{MemoryStat, parse_memory_stat}
use sakai.Memory.Events.RoundTrip.{memory_pairs, parse_memory_events-memory_pairs}
use sakai.Memory.Events.{MemoryEventCounts, parse_memory_events}
use sakai.Str.{Str, codes, is_whitespace}
use sakai.Num.{IntErrorKind, parse_unsigned, u64_max}
use sakai.Error.{FloatErrorKind, bad_float, out_of_range}
use sakai.Decode.{unsigned, scaled_time, parse_percent}
use sakai.Decode.Sound.{scaled_time-unsigned}
use sakai.Parse.Keyed.{Pairs, pair_file}
use sakai.BTreeMap.{BTreeMap, contains_key}
use sakai.BTreeMap.Order.{cmp_str, str_ord}

abbrev two_numbers : Str
two_numbers = codes "12 13\n"

abbrev some_pairs : Pairs
some_pairs = (codes "low", codes "3") ∷ (codes "high", codes "0") ∷ (codes "low", codes "7") ∷ []

microseconds_text : unsigned u64_max (codes "20000000000000000") ≡ ok 20000000000000000
unfolding unsigned
microseconds_text = refl

scaled_time-unsigned_example : scaled_time 1000 (codes "20000000000000000") ≡ (
    if leb (20000000000000000 * 1000) u64_max
    then ok (record { nanoseconds = 20000000000000000 * 1000 })
    else err out_of_range)
scaled_time-unsigned_example =
    scaled_time-unsigned 1000 (codes "20000000000000000") 20000000000000000 microseconds_text

abbrev counts : MemoryEventCounts
counts = record {
  low = record { count = 0 };
  high = record { count = 5 };
  max = record { count = 1 };
  oom = record { count = 0 };
  oom_kill = record { count = 18446744073709551615 };
  oom_group_kill = some (record { count = 2 });
  sock_throttled = none;
}

parse_memory_events-memory_pairs_example :
    parse_memory_events (pair_file (memory_pairs counts)) ≡ ok counts
parse_memory_events-memory_pairs_example =
    parse_memory_events-memory_pairs counts
      (omega arith, omega arith, omega arith, omega arith, omega arith, omega arith, tt)

abbrev pub memory_file : Str
memory_file = codes "file 8\nanon 4096\npgfault 3\nunheard_of x\n"

abbrev pub memory_stat : MemoryStat
memory_stat = record {
  byte_values = (anon, record { bytes = 4096 }) ∷ (file, record { bytes = 8 }) ∷ [];
  page_values = [];
  count_values = (pgfault, record { count = 3 }) ∷ [];
}

pub memory_stat_parsed : parse_memory_stat memory_file ≡ ok memory_stat
unfolding parse_memory_stat
memory_stat_parsed = refl

parse_memory_stat-baseline_example :
    (contains_key anon memory_stat.byte_values ≡ true)
    × (contains_key file memory_stat.byte_values ≡ true)
    × IsOrdered memory_stat
parse_memory_stat-baseline_example =
    parse_memory_stat-baseline memory_file memory_stat memory_stat_parsed

abbrev resources : BTreeMap Str Count
resources = (codes "res_a", record { count = 3 }) ∷ (codes "res_b", record { count = 0 }) ∷ []

IsWord-a : IsWord (codes "res_a")
IsWord-a = is_word-IsWord (codes "res_a") (unfold is_whitespace in refl)

IsWord-b : IsWord (codes "res_b")
IsWord-b = is_word-IsWord (codes "res_b") (unfold is_whitespace in refl)

names_ascend : IsAscending resources
names_ascend = (unfold cmp_str in refl, (tt, tt))

abbrev limits : BTreeMap Str (MaxOr Count)
limits = (codes "res_a", max_token) ∷ (codes "res_b", value (record { count = 9 })) ∷ []

limits_ascend : IsAscending limits
limits_ascend = (unfold cmp_str in refl, (tt, tt))

-- Numbers in place of floats.
abbrev to_float : Result IntErrorKind ℕ → Result FloatErrorKind ℕ
to_float (ok n) = ok n
to_float (err e) = err bad_float

abbrev pub numbers : Float
numbers = record {
  F64 = ℕ;
  Ratio = ℕ;
  parse_float = λ text. to_float (parse_unsigned u64_max text);
  is_finite = λ x. true;
  le_float = leb;
  from_nat = λ n. n;
  div_float = λ x y. x;
  percent = λ x. x;
  ratio = λ x. x;
}

abbrev quiet : Shown
quiet = record { avg10 = codes "0"; avg60 = codes "3"; avg300 = codes "12"; total = 250 }

abbrev quiet_line : PressureLine numbers
quiet_line = record { avg10 = 0; avg60 = 3; avg300 = 12; total = record { nanoseconds = 250000 } }

quiet-Reads : Reads numbers quiet quiet_line
unfolding parse_unsigned parse_percent is_whitespace
quiet-Reads = (
  (is_word-IsWord (codes "0") refl, refl),
  (is_word-IsWord (codes "3") refl, refl),
  (is_word-IsWord (codes "12") refl, refl),
  omega arith,
  refl,
)

parse_pressure-pressure_file_example :
    parse_pressure numbers (pressure_file numbers (quiet, quiet_line) (some (quiet, quiet_line)))
    ≡ ok (record { some_line = quiet_line; full = some quiet_line })
parse_pressure-pressure_file_example =
    parse_pressure-pressure_file numbers (quiet, quiet_line) (some (quiet, quiet_line))
      (quiet-Reads, (quiet-Reads, tt))

abbrev repeated : Pairs
repeated = (codes "low", codes "9") ∷ (codes "low", codes "3") ∷ []

abbrev single_pair : Pairs
single_pair = (codes "low", codes "3") ∷ []
