-- ===== src/Rdma/RoundTrip.antt =====
-- `rdma.events` as the kernel writes it, sakai/src/cgroup/v2/rdma.rs.
use sakai.Base.{
  ◌==◌, all, All, ok, collect, ℕ, ◌≤◌, ◌≡◌, refl, Bool, true, false, not, Option, none, some, List,
  [], ◌∷◌, ◌++◌, map, arith,
}
use sakai.BTreeMap.{get, from_iter}
use sakai.BTreeMap.Order.{cmp_str, str_ord}
use sakai.Io.Device.Lines.{equations_read}
use sakai.Memory.Events.RoundTrip.{Fits, required-some}
use sakai.Num.{u32_max, print}
use sakai.Num.Print.{parse_unsigned-print}
use sakai.Parse.{KeyedFields, new_fields}
use sakai.Parse.Keyed.{Pairs}
use sakai.Rdma.Device.{RdmaDevice, rdma_ord}
use sakai.Rdma.Files.{
  RdmaDeviceEvents, device_events, rdma_index, rdma_line, parse_rdma_devices, parse_rdma_events,
}
use sakai.Spaced.{
  spaced, token, IsEquation, tokens-IsWord, split_spaced, spaced-IsLine, spaced-filled,
}
use sakai.Str.{Str, codes, is_whitespace, split_ascii_whitespace, is_blank}
use sakai.Str.Lines.{IsLine, unlines}
use sakai.Words.{IsWord, filled_lines-unlines, print-IsWord, is_word, is_word-IsWord}

-- The index, where there is one, and the four counters.
abbrev event_pairs : Option ℕ → RdmaDeviceEvents → Pairs
event_pairs index e =
    index_pairs index
    ++ (codes "hca_handle.max", print e.handle_events.max.count)
      ∷ (codes "hca_handle.alloc_fail", print e.handle_events.alloc_fail.count)
      ∷ (codes "hca_object.max", print e.object_events.max.count)
      ∷ (codes "hca_object.alloc_fail", print e.object_events.alloc_fail.count)
      ∷ []
  where
    index_pairs : Option ℕ → Pairs
    index_pairs none = []
    index_pairs (some i) = (codes "index", print i) ∷ []

abbrev pub events_line : RdmaDevice × RdmaDeviceEvents → Str
events_line (d, e) = spaced d.name (map token (event_pairs d.index e))

-- The file with these devices on its lines.
abbrev pub events_file : List (RdmaDevice × RdmaDeviceEvents) → Str
events_file entries = unlines (map events_line entries)

abbrev FitsIndex : Option ℕ → Type 0
FitsIndex none = Unit
FitsIndex (some i) = i ≤ u32_max

-- The name is a word, the index has 32 bits and the counts 64.
abbrev pub IsEventsEntry : RdmaDevice × RdmaDeviceEvents → Type 0
IsEventsEntry (d, e) =
    IsWord d.name
    × FitsIndex d.index
    × Fits e.handle_events.max
    × Fits e.handle_events.alloc_fail
    × Fits e.object_events.max
    × Fits e.object_events.alloc_fail

has_no_equals : Str → Bool
has_no_equals key = all (λ c. not (c == b'=')) key

has_no_equals-All : (key : Str) → has_no_equals key ≡ true → All (λ c. (c == b'=') ≡ false) key
unfolding has_no_equals
has_no_equals-All [] h = tt
has_no_equals-All (c ∷ key) h = (ground arith, has_no_equals-All key (ground arith))

count-IsEquation :
    (key : Str) (n : ℕ) → is_word key ≡ true → has_no_equals key ≡ true → IsEquation (key, print n)
count-IsEquation key n word h = (is_word-IsWord key word, has_no_equals-All key h, print-IsWord n)

counts-IsEquation : (e : RdmaDeviceEvents) → All IsEquation (event_pairs none e)
unfolding is_whitespace has_no_equals
counts-IsEquation e = (
  count-IsEquation (codes "hca_handle.max") e.handle_events.max.count refl refl,
  (
    count-IsEquation (codes "hca_handle.alloc_fail") e.handle_events.alloc_fail.count refl refl,
    (
      count-IsEquation (codes "hca_object.max") e.object_events.max.count refl refl,
      (
        count-IsEquation (codes "hca_object.alloc_fail") e.object_events.alloc_fail.count refl refl,
        tt,
      ),
    ),
  ),
)

event_pairs-IsEquation :
    (index : Option ℕ) (e : RdmaDeviceEvents) → All IsEquation (event_pairs index e)
unfolding is_whitespace has_no_equals
event_pairs-IsEquation none e = counts-IsEquation e
event_pairs-IsEquation (some i) e =
    (count-IsEquation (codes "index") i refl refl, counts-IsEquation e)

rdma_index-event_pairs :
    (raw : Str) (index : Option ℕ) (e : RdmaDeviceEvents)
    → FitsIndex index
    → rdma_index raw (record { raw = raw; values = from_iter (event_pairs index e) }) ≡ ok index
unfolding get from_iter cmp_str
rdma_index-event_pairs raw none e h = refl
rdma_index-event_pairs raw (some i) e h = rw (parse_unsigned-print u32_max i h) refl

abbrev event_fields : Str → RdmaDevice → RdmaDeviceEvents → KeyedFields
event_fields raw d e = record { raw = raw; values = from_iter (event_pairs d.index e) }

-- Every counter is found under its name.
abbrev AllFound : Pairs → RdmaDeviceEvents → Type 0
AllFound kvs e =
    (get (codes "hca_handle.max") (from_iter kvs) ≡ some (print e.handle_events.max.count))
    × (get (codes "hca_handle.alloc_fail") (from_iter kvs)
        ≡ some (print e.handle_events.alloc_fail.count))
    × (get (codes "hca_object.max") (from_iter kvs) ≡ some (print e.object_events.max.count))
    × (get (codes "hca_object.alloc_fail") (from_iter kvs)
        ≡ some (print e.object_events.alloc_fail.count))

all_found : (index : Option ℕ) (e : RdmaDeviceEvents) → AllFound (event_pairs index e) e
unfolding get from_iter cmp_str
all_found none e = (refl, refl, refl, refl)
all_found (some i) e = (refl, refl, refl, refl)

device_events-event_pairs :
    (raw : Str) (d : RdmaDevice) (e : RdmaDeviceEvents)
    → IsEventsEntry (d, e)
    → device_events (event_fields raw d e) ≡ ok e
unfolding device_events
device_events-event_pairs raw d e (h0, h1, h2, h3, h4, h5) =
    let fields = event_fields raw d e in
    let (g0, g1, g2, g3) = all_found d.index e in
    rw
      (
        required-some fields (codes "hca_handle.max") e.handle_events.max g0 h2,
        required-some fields (codes "hca_handle.alloc_fail") e.handle_events.alloc_fail g1 h3,
        required-some fields (codes "hca_object.max") e.object_events.max g2 h4,
        required-some fields (codes "hca_object.alloc_fail") e.object_events.alloc_fail g3 h5,
      )
      refl

events_line-read :
    (raw : Str) (entry : RdmaDevice × RdmaDeviceEvents)
    → IsEventsEntry entry
    → rdma_line raw device_events (split_ascii_whitespace (events_line entry)) ≡ ok entry
unfolding new_fields
events_line-read raw (d, e) h =
    let equations = event_pairs-IsEquation d.index e in
    rw
      (split_spaced d.name (map token (event_pairs d.index e)) h.0
        (tokens-IsWord (event_pairs d.index e) equations))
      (rw (equations_read raw (event_pairs d.index e) equations)
        (rw (rdma_index-event_pairs raw d.index e h.1, device_events-event_pairs raw d e h) refl))

events_lines-read :
    (raw : Str) (entries : List (RdmaDevice × RdmaDeviceEvents))
    → All IsEventsEntry entries
    → collect (
        map
          (λ line. rdma_line raw device_events (split_ascii_whitespace line))
          (map events_line entries))
      ≡ ok entries
events_lines-read raw [] h = refl
events_lines-read raw (entry ∷ entries) (he, h) =
    rw (events_line-read raw entry he, events_lines-read raw entries h) refl

events_lines-IsLine :
    (entries : List (RdmaDevice × RdmaDeviceEvents))
    → All IsEventsEntry entries
    → All IsLine (map events_line entries)
events_lines-IsLine [] h = tt
events_lines-IsLine ((d, e) ∷ entries) (he, h) = (
  spaced-IsLine d.name _ he.0
      (tokens-IsWord (event_pairs d.index e) (event_pairs-IsEquation d.index e)),
  events_lines-IsLine entries h,
)

events_lines-filled :
    (entries : List (RdmaDevice × RdmaDeviceEvents))
    → All IsEventsEntry entries
    → All (λ l. is_blank l ≡ false) (map events_line entries)
events_lines-filled [] h = tt
events_lines-filled ((d, e) ∷ entries) (he, h) =
    (spaced-filled d.name _ he.0, events_lines-filled entries h)

-- The devices that the kernel writes into `rdma.events`, with or without an index, are read as the
-- map of them, in the order of names and indices and with the last of a repeated device, if the
-- names are words, the indices have 32 bits and the counts 64.
pub parse_rdma_events-events_file :
    (entries : List (RdmaDevice × RdmaDeviceEvents))
    → All IsEventsEntry entries
    → parse_rdma_events (events_file entries) ≡ ok (from_iter entries)
unfolding parse_rdma_events parse_rdma_devices
parse_rdma_events-events_file entries h =
    rw
      (filled_lines-unlines (map events_line entries) (events_lines-IsLine entries h)
        (events_lines-filled entries h))
      (rw (events_lines-read (events_file entries) entries h) refl)
