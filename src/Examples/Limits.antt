-- ===== src/Examples/Limits.antt =====
-- The files of the CPU controller.
use sakai.Base.{ok, err, ℕ, ◌-◌, ◌*◌, ◌^◌, ◌≤◌, ◌≡◌, refl, ◌↔◌, none, some, [], ◌∷◌, ◌++◌, arith}
use sakai.Cpu.Stat.Bandwidth.{
  FollowsFields, parse_cpu_stat-FollowsFields, parse_bandwidth_count-minus,
}
use sakai.Cpu.Stat.{CpuBandwidthStat, CpuStat, read_fields, parse_bandwidth_count, parse_cpu_stat}
use sakai.Parse.{KeyedFields}
use sakai.Decode.Exact.{parse_microseconds_iff}
use sakai.Decode.{parse_microseconds}
use sakai.Num.Exact.{Spells}
use sakai.Num.{negsuc, u64_max, print}
use sakai.Error.{out_of_range}
use sakai.Str.{Str, codes}
use sakai.Unit.{value}
use sakai.Cpu.Limits.{parse_cpu_max, Nice, decode_nice}
use sakai.Cpu.Limits.RoundTrip.{quota_of, show_cpu_max, parse_cpu_max-show}

parse_cpu_max-show_example :
    parse_cpu_max (show_cpu_max (value 50000) 100000)
    ≡ ok (record {
      quota = quota_of (value 50000);
      period = record { time = record { nanoseconds = 100000 * 1000 } };
    })
parse_cpu_max-show_example =
    parse_cpu_max-show (value 50000) 100000 (omega arith, omega arith) (omega arith) (omega arith)

abbrev lowest : Nice
lowest = record { nice = negsuc 19 }

lowest_decoded : decode_nice (codes "-20") ≡ ok lowest
unfolding decode_nice
lowest_decoded = refl

too_low : decode_nice (codes "-21") ≡ err out_of_range
unfolding decode_nice
too_low = refl

parse_bandwidth_count-minus_example :
    parse_bandwidth_count (b'-' ∷ print 1) ≡ ok (record { count = 2 ^ 32 - 1 })
parse_bandwidth_count-minus_example = parse_bandwidth_count-minus 1 (omega arith) (omega arith)

abbrev stat_file : Str
stat_file =
    codes "usage_usec 9\nuser_usec 5\nsystem_usec 4\nnr_periods 1\nnr_throttled 0\n"
    ++ codes "throttled_usec 0\nnr_bursts 2\nburst_usec 3\n"

abbrev stat_entries : KeyedFields
stat_entries = record {
  raw = stat_file;
  values =
      (codes "burst_usec", codes "3")
      ∷ (codes "nr_bursts", codes "2")
      ∷ (codes "nr_periods", codes "1")
      ∷ (codes "nr_throttled", codes "0")
      ∷ (codes "system_usec", codes "4")
      ∷ (codes "throttled_usec", codes "0")
      ∷ (codes "usage_usec", codes "9")
      ∷ (codes "user_usec", codes "5")
      ∷ [];
}

abbrev bursts : CpuBandwidthStat
bursts = record {
  nr_periods = record { count = 1 };
  nr_throttled = record { count = 0 };
  throttled = record { nanoseconds = 0 };
  burst = some (record { nr_bursts = record { count = 2 }; burst = record { nanoseconds = 3000 } });
}

abbrev burst_cpu_stat : CpuStat
burst_cpu_stat = record {
  time = record {
    usage = record { nanoseconds = 9000 };
    user = record { nanoseconds = 5000 };
    system = record { nanoseconds = 4000 };
    nice = none;
    force_idle = none;
  };
  bandwidth = some bursts;
}

stat_read : read_fields stat_file ≡ ok stat_entries
unfolding read_fields
stat_read = refl

stat_parsed : parse_cpu_stat stat_file ≡ ok burst_cpu_stat
unfolding parse_cpu_stat
stat_parsed = refl

parse_cpu_stat-FollowsFields_example : FollowsFields stat_entries (some bursts)
parse_cpu_stat-FollowsFields_example =
    parse_cpu_stat-FollowsFields stat_file stat_entries burst_cpu_stat stat_read stat_parsed

parse_microseconds_iff_example :
    (parse_microseconds (codes "+7") ≡ ok (record { nanoseconds = 7000 }))
    ↔ ((n : ℕ) × Spells (codes "+7") n × (n * 1000 ≤ u64_max) × (7000 ≡ n * 1000))
parse_microseconds_iff_example = parse_microseconds_iff (codes "+7") (record { nanoseconds = 7000 })
