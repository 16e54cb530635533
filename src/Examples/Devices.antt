-- ===== src/Examples/Devices.antt =====
-- The files of the RDMA, HugeTLB, I/O and device memory controllers, on the contents that the tests
-- of the crate have.
use sakai.Base.{All, ok, err, map_ok, ℕ, ◌+◌, ◌≡◌, refl, none, some, List, [], ◌∷◌, arith}
use sakai.BTreeMap.{BTreeMap, from_iter}
use sakai.BTreeMap.Values.{map_values}
use sakai.Dmem.{parse_dmem_usage}
use sakai.Error.{out_of_range, missing}
use sakai.Hugetlb.Files.{parse_hugetlb_numa_stat}
use sakai.Io.Cost.{restrict_to_be, parse_io_priority}
use sakai.Io.Stat.{decode_delay}
use sakai.Io.Weights.{parse_io_weight, parse_io_max}
use sakai.Num.{negsuc, i32_max, print}
use sakai.Rdma.Files.{
  RdmaDeviceCurrent, RdmaDeviceEvents, parse_rdma_current, parse_rdma_max, parse_rdma_events,
}
use sakai.Rdma.Device.{RdmaDevice, rdma_ord}
use sakai.Rdma.Unlimited.{as_usage, parse_rdma_current-as_usage}
use sakai.Rdma.RoundTrip.{events_file, IsEventsEntry, parse_rdma_events-events_file}
use sakai.Words.{is_word-IsWord}
use sakai.Str.Lines.{unlines}
use sakai.Str.{Str, codes, is_whitespace}
use sakai.Unit.{max_token, value}

abbrev usage_file : Str
usage_file =
    codes
      "rxe0 index=5 hca_handle=2 hca_object=max\nrxe0 index=0 hca_object=20 hca_handle=1\nmlx4_0 hca_handle=3 hca_object=40\n"

abbrev usages : BTreeMap RdmaDevice RdmaDeviceCurrent
usages =
    (
      record { name = codes "mlx4_0"; index = none },
      record { handles = record { count = 3 }; objects = record { count = 40 } },
    )
    ∷ (
      record { name = codes "rxe0"; index = some 0 },
      record { handles = record { count = 1 }; objects = record { count = 20 } },
    )
    ∷ (
      record { name = codes "rxe0"; index = some 5 },
      record { handles = record { count = 2 }; objects = record { count = i32_max } },
    )
    ∷ []

-- Lines in any order: the devices are sorted by name and then by index.
rdma_current_sorted : parse_rdma_current usage_file ≡ ok usages
unfolding parse_rdma_current
rdma_current_sorted = refl

parse_rdma_current-as_usage_example :
    parse_rdma_current usage_file ≡ map_ok (map_values as_usage) (parse_rdma_max usage_file)
parse_rdma_current-as_usage_example = parse_rdma_current-as_usage usage_file

rdma_max_unlimited :
    parse_rdma_max (codes "mlx4_0 hca_handle=max hca_object=40\n")
    ≡ ok (
        (
          record { name = codes "mlx4_0"; index = none },
          record { max_handles = max_token; max_objects = value (record { count = 40 }) },
        )
        ∷ [])
unfolding parse_rdma_max
rdma_max_unlimited = refl

abbrev events_of : ℕ → RdmaDeviceEvents
events_of n = record {
  handle_events = record { max = record { count = n }; alloc_fail = record { count = n + 1 } };
  object_events = record { max = record { count = n + 2 }; alloc_fail = record { count = n + 3 } };
}

abbrev event_entries : List (RdmaDevice × RdmaDeviceEvents)
event_entries =
    (record { name = codes "rxe0"; index = some 5 }, events_of 5)
    ∷ (record { name = codes "mlx4_0"; index = none }, events_of 9)
    ∷ []

event_entries-IsEventsEntry : All IsEventsEntry event_entries
event_entries-IsEventsEntry = (
  (
    is_word-IsWord (codes "rxe0") (unfold is_whitespace in refl),
    omega arith,
    omega arith,
    omega arith,
    omega arith,
    omega arith,
  ),
  (
    (
      is_word-IsWord (codes "mlx4_0") (unfold is_whitespace in refl),
      tt,
      omega arith,
      omega arith,
      omega arith,
      omega arith,
    ),
    tt,
  ),
)

event_file_written :
    events_file event_entries
    ≡ codes
        "rxe0 index=5 hca_handle.max=5 hca_handle.alloc_fail=6 hca_object.max=7 hca_object.alloc_fail=8\nmlx4_0 hca_handle.max=9 hca_handle.alloc_fail=10 hca_object.max=11 hca_object.alloc_fail=12\n"
unfolding print unlines
event_file_written = refl

parse_rdma_events-events_file_example :
    parse_rdma_events (events_file event_entries) ≡ ok (from_iter event_entries)
parse_rdma_events-events_file_example =
    parse_rdma_events-events_file event_entries event_entries-IsEventsEntry

rdma_events_any_order :
    parse_rdma_events (
      codes
        "rxe0 index=5 hca_object.alloc_fail=8 hca_object.max=7 hca_handle.alloc_fail=6 hca_handle.max=5\n")
    ≡ ok (
        (
          record { name = codes "rxe0"; index = some 5 },
          record {
            handle_events = record {
              max = record { count = 5 };
              alloc_fail = record { count = 6 };
            };
            object_events = record {
              max = record { count = 7 };
              alloc_fail = record { count = 8 };
            };
          },
        )
        ∷ [])
unfolding parse_rdma_events
rdma_events_any_order = refl

-- A field that is not known is passed over, and the nodes are sorted.
hugetlb_numa_sorted :
    parse_hugetlb_numa_stat (codes "N3=2097152 future_key=nope total=4194304 N0=2097152\n")
    ≡ ok (record {
      total = record { bytes = 4194304 };
      nodes = (0, record { bytes = 2097152 }) ∷ (3, record { bytes = 2097152 }) ∷ [];
    })
unfolding parse_hugetlb_numa_stat
hugetlb_numa_sorted = refl

io_weight_devices :
    parse_io_weight (codes "default 100\n8:16 200\n8:0 50\n")
    ≡ ok (record {
      default_weight = record { weight = 100 };
      devices =
          (record { major = 8; minor = 0 }, record { weight = 50 })
          ∷ (record { major = 8; minor = 16 }, record { weight = 200 })
          ∷ [];
    })
unfolding parse_io_weight
io_weight_devices = refl

io_max_line :
    parse_io_max (codes "8:16 rbps=2097152 wbps=max riops=max wiops=120\n")
    ≡ ok (
        (
          record { major = 8; minor = 16 },
          record {
            read_bandwidth = value (record { bytes_per_second = 2097152 });
            write_bandwidth = max_token;
            read_iops = max_token;
            write_iops = value (record { hertz = 120 });
          },
        )
        ∷ [])
unfolding parse_io_max
io_max_line = refl

delay_of_minus_one : decode_delay (codes "-1") ≡ ok (record { usage = negsuc 0 })
unfolding decode_delay
delay_of_minus_one = refl

delay_of_minus_two : decode_delay (codes "-2") ≡ err out_of_range
unfolding decode_delay
delay_of_minus_two = refl

priority_trimmed : parse_io_priority (codes " restrict-to-be\n") ≡ ok restrict_to_be
unfolding parse_io_priority
priority_trimmed = refl

priority_missing : parse_io_priority (codes " \n") ≡ err (missing (codes " \n") (codes "priority"))
unfolding parse_io_priority missing
priority_missing = refl

dmem_regions :
    parse_dmem_usage (codes "drm/1/vram0 max\ndrm/0/vram0 4096\n")
    ≡ ok (
        (codes "drm/0/vram0", value (record { bytes = 4096 }))
        ∷ (codes "drm/1/vram0", max_token)
        ∷ [])
unfolding parse_dmem_usage
dmem_regions = refl
