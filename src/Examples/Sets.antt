-- ===== src/Examples/Sets.antt =====
-- The lists of CPUs.
use sakai.Base.{
  ◌==◌, any, All, ok, map_ok, collect, ℕ, ◌*◌, ◌≡◌, refl, ◌≢◌, ◌↔◌, true, some, List, [], ◌∷◌, ◌++◌,
  map, arith,
}
use sakai.Spaced.{IsEquation}
use sakai.Io.Device.Lines.{device_file, IsDeviceEntry, of_entry, parse_device_lines-device_file}
use sakai.Parse.Keyed.{Pairs}
use sakai.Words.{is_word-IsWord}
use sakai.Io.Device.{parse_device_lines}
use sakai.Hugetlb.PageSize.RoundTrip.{IsPageSize, parse_size_iff}
use sakai.Hugetlb.PageSize.{PageSize, mebibyte, show_size, parse_size}
use sakai.Cpuset.Partition.RoundTrip.{show_partition, parse_partition-show_partition}
use sakai.Cpuset.Partition.{root_invalid, is_reason, parse_partition}
use sakai.Cpuset.IdList.RoundTrip.{show_ids, parse_ids-show_ids}
use sakai.Parse.{KeyedFields}
use sakai.BTreeMap.{BTreeMap, from_iter}
use sakai.Error.{Parsed}
use sakai.Str.{Str, codes, is_whitespace}
use sakai.Cpuset.IdList.{IdRange, IdList, is_ascending, parse_ids, ids, contains}
use sakai.Cpuset.IdList.Members.{Ascends, parse_ids-ids}
use sakai.Io.Device.Order.{Device, device_ord}

abbrev some_list : IdList
some_list = record { ranges = record { start = 0; last = 3 } ∷ record { start = 5; last = 5 } ∷ [] }

some_list_parsed : parse_ids (codes "0-3,5\n") (codes "cpus") ≡ ok some_list
unfolding parse_ids
some_list_parsed = refl

parse_ids-ids_example :
    Ascends 0 (ids some_list.ranges)
    × ((id : ℕ) → any (λ x. x == id) (ids some_list.ranges) ≡ contains some_list.ranges id)
parse_ids-ids_example = parse_ids-ids (codes "0-3,5\n") (codes "cpus") some_list some_list_parsed

abbrev some_ranges : List IdRange
some_ranges = record { start = 0; last = 3 } ∷ record { start = 5; last = 5 } ∷ []

parse_ids-show_ids_example :
    parse_ids (show_ids some_ranges) (codes "mems") ≡ ok (record { ranges = some_ranges })
parse_ids-show_ids_example =
    parse_ids-show_ids (codes "mems") some_ranges
      ((omega arith, omega arith), ((omega arith, omega arith), tt)) ascending
  where
    ascending : is_ascending some_ranges ≡ true
    ascending = unfold is_ascending in refl

abbrev a_reason : Str
a_reason = codes "Cpu list (in cpuset.cpus) not exclusive"

a_reason_passes : is_reason a_reason ≡ true
unfolding is_reason
a_reason_passes = refl

parse_partition-show_partition_example :
    parse_partition (show_partition (root_invalid (some a_reason)) ++ b'\n' ∷ [])
    ≡ ok (root_invalid (some a_reason))
parse_partition-show_partition_example =
    parse_partition-show_partition (root_invalid (some a_reason)) a_reason_passes

parse_size_iff_example : (parse_size (codes "2MB") ≡ ok (record { size = mebibyte * 2 })) ↔ (
    (show_size (record { size = mebibyte * 2 }) ≡ codes "2MB")
    × IsPageSize (record { size = mebibyte * 2 }))
parse_size_iff_example = parse_size_iff (codes "2MB") (record { size = mebibyte * 2 })

two_megabytes : parse_size (codes "2MB") ≡ ok (record { size = mebibyte * 2 })
unfolding parse_size
two_megabytes = refl

not_a_label : (s : PageSize) → parse_size (codes "2048KB") ≢ ok s
unfolding parse_size
not_a_label s h = cc

-- The whole text of each device.
abbrev keep_fields : KeyedFields → Parsed Str
keep_fields fields = ok fields.raw

abbrev one_file : Str
one_file = codes "8:16 a=1\n8:0 b=2\n"

abbrev two_devices : BTreeMap Device Str
two_devices =
    (record { major = 8; minor = 0 }, one_file) ∷ (record { major = 8; minor = 16 }, one_file) ∷ []

two_devices_parsed : parse_device_lines one_file keep_fields ≡ ok two_devices
unfolding parse_device_lines
two_devices_parsed = refl

abbrev device_entries : List (Device × Pairs)
device_entries =
    (
      record { major = 8; minor = 16 },
      (codes "rbps", codes "max") ∷ (codes "wiops", codes "5") ∷ [],
    )
    ∷ []

entries-IsDeviceEntry : All IsDeviceEntry device_entries
entries-IsDeviceEntry = ((omega arith, omega arith, (cc), (rbps_max, (wiops_5, tt))), tt)
  where
    rbps_max : IsEquation (codes "rbps", codes "max")
    rbps_max = (
      is_word-IsWord (codes "rbps") (unfold is_whitespace in refl),
      (refl, (refl, (refl, (refl, tt)))),
      is_word-IsWord (codes "max") (unfold is_whitespace in refl),
    )

    wiops_5 : IsEquation (codes "wiops", codes "5")
    wiops_5 = (
      is_word-IsWord (codes "wiops") (unfold is_whitespace in refl),
      (refl, (refl, (refl, (refl, (refl, tt))))),
      is_word-IsWord (codes "5") (unfold is_whitespace in refl),
    )

parse_device_lines-device_file_example :
    parse_device_lines (device_file device_entries) keep_fields
    ≡ map_ok from_iter
        (collect (map (of_entry (device_file device_entries) keep_fields) device_entries))
parse_device_lines-device_file_example =
    parse_device_lines-device_file keep_fields device_entries entries-IsDeviceEntry
