-- ===== src/Memory/Events.antt =====
-- `memory.events`, `memory.events.local` and `memory.swap.events`: sakai/src/cgroup/v2/memory/events.rs
-- and swap.rs. `MemoryEvents` and `MemoryEventsLocal` hold the counts alone.
pub mod RoundTrip
use sakai.Base.{if◌then◌else◌, ok, ◌>>=◌, ◌>>◌, Option}
use sakai.Decode.{parse_count}
use sakai.Error.{Parsed}
use sakai.Parse.{keyed_fields, required, optional}
use sakai.Str.{Str, codes, str_eq}
use sakai.Unit.{Count}

pub record MemoryEventCounts : Type 0 where
  pub low : Count
  pub high : Count
  pub max : Count
  pub oom : Count
  pub oom_kill : Count
  pub oom_group_kill : Option Count
  pub sock_throttled : Option Count

-- `FromStr for MemoryEventCounts`
unfoldable pub parse_memory_events : Str → Parsed MemoryEventCounts
unfolding keyed_fields required optional parse_count
parse_memory_events contents = do
  fields ← keyed_fields contents (λ _. codes "value")
  low_count ← required parse_count fields (codes "low")
  high_count ← required parse_count fields (codes "high")
  max_count ← required parse_count fields (codes "max")
  oom_count ← required parse_count fields (codes "oom")
  kills ← required parse_count fields (codes "oom_kill")
  group_kills ← optional parse_count fields (codes "oom_group_kill")
  throttled ← optional parse_count fields (codes "sock_throttled")
  ok (record {
    low = low_count;
    high = high_count;
    max = max_count;
    oom = oom_count;
    oom_kill = kills;
    oom_group_kill = group_kills;
    sock_throttled = throttled;
  })

pub record SwapEvents : Type 0 where
  pub swap_high : Option Count
  pub swap_max : Count
  pub swap_fail : Count

-- The closure that names the value of a key in an error.
unfoldable pub swap_value_field : Str → Str
unfolding str_eq
swap_value_field key =
    if str_eq key (codes "high")
    then codes "high"
    else if str_eq key (codes "max")
    then codes "max"
    else if str_eq key (codes "fail")
    then codes "fail"
    else codes "value"

-- `FromStr for SwapEvents`
unfoldable pub parse_swap_events : Str → Parsed SwapEvents
unfolding keyed_fields required optional parse_count swap_value_field
parse_swap_events contents = do
  fields ← keyed_fields contents swap_value_field
  high_count ← optional parse_count fields (codes "high")
  max_count ← required parse_count fields (codes "max")
  fail_count ← required parse_count fields (codes "fail")
  ok (record { swap_high = high_count; swap_max = max_count; swap_fail = fail_count })
