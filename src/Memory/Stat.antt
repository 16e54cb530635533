-- ===== src/Memory/Stat.antt =====
-- `memory.stat`, sakai/src/cgroup/v2/memory/stat.rs.
pub mod Baseline
use sakai.Base.{if◌then◌else◌, ok, err, ◌>>=◌, ◌>>◌, try_fold, Option, none, some, List, [], ◌∷◌}
use sakai.BTreeMap.{BTreeMap, insert, contains_key}
use sakai.Decode.{parse_field, parse_count, parse_pages, parse_bytes}
use sakai.Error.{missing, Parsed}
use sakai.Memory.BytesField.{
  MemoryStatByteField, anon, file, byte_name, byte_index, byte_fields, byte_ord,
}
use sakai.Memory.CountsField.{
  MemoryStatCountField, count_name, count_index, count_fields, count_ord,
}
use sakai.Memory.PagesField.{MemoryStatPageField, page_name, page_index, page_fields, page_ord}
use sakai.Parse.{parse_line, key_value}
use sakai.Str.{Str, codes, filled_lines}
use sakai.Strum.{from_name}
use sakai.Unit.{Bytes, Count, Pages}

pub record MemoryStat : Type 0 where
  pub byte_values : BTreeMap MemoryStatByteField Bytes
  pub page_values : BTreeMap MemoryStatPageField Pages
  pub count_values : BTreeMap MemoryStatCountField Count

abbrev pub empty_stat : MemoryStat
empty_stat = record { byte_values = []; page_values = []; count_values = [] }

-- What a key of `memory.stat` is: the three tests of `insert` in turn.
pub data StatField : Type 0 where
  byte_field : MemoryStatByteField → StatField
  page_field : MemoryStatPageField → StatField
  count_field : MemoryStatCountField → StatField
  unknown_field : StatField

abbrev if_count : Option MemoryStatCountField → StatField
if_count (some x) = count_field x
if_count none = unknown_field

abbrev if_page : Option MemoryStatPageField → StatField → StatField
if_page (some x) rest = page_field x
if_page none rest = rest

abbrev if_byte : Option MemoryStatByteField → StatField → StatField
if_byte (some x) rest = byte_field x
if_byte none rest = rest

unfoldable pub stat_field : Str → StatField
unfolding from_name byte_name page_name count_name
stat_field key = if_byte (from_name byte_name byte_fields key) (
    if_page (from_name page_name page_fields key)
      (if_count (from_name count_name count_fields key)))

abbrev pub insert_field : MemoryStat → Str → Str → StatField → Parsed MemoryStat
insert_field stat raw text (byte_field x) = do
  v ← parse_field parse_bytes raw (byte_name x) text
  ok (record stat { byte_values = insert x v stat.byte_values })
insert_field stat raw text (page_field x) = do
  v ← parse_field parse_pages raw (page_name x) text
  ok (record stat { page_values = insert x v stat.page_values })
insert_field stat raw text (count_field x) = do
  v ← parse_field parse_count raw (count_name x) text
  ok (record stat { count_values = insert x v stat.count_values })
insert_field stat raw text unknown_field = ok stat

-- `MemoryStat::insert`
unfoldable pub insert_stat : MemoryStat → Str → Str → Str → Parsed MemoryStat
unfolding stat_field parse_field parse_bytes parse_pages parse_count insert byte_index page_index
    count_index
insert_stat stat raw key text = insert_field stat raw text (stat_field key)

abbrev require_each {ℓ} :
    {T : Type ℓ}
    → Str
    → BTreeMap MemoryStatByteField T
    → List MemoryStatByteField
    → Parsed (Unit {0})
require_each raw fields [] = ok tt
require_each raw fields (x ∷ xs) =
    if contains_key x fields then require_each raw fields xs else err (missing raw (byte_name x))

-- `MemoryStatByteField::require_baseline`
unfoldable pub require_baseline {ℓ} :
    {T : Type ℓ} → Str → BTreeMap MemoryStatByteField T → Parsed (Unit {0})
unfolding contains_key byte_name byte_index missing
require_baseline raw fields = require_each raw fields (anon ∷ file ∷ [])

unfoldable pub stat_line : Str → MemoryStat → Str → Parsed MemoryStat
unfolding parse_line key_value insert_stat
stat_line contents stat line = do
  (key, text) ← parse_line contents line (key_value (λ _. codes "value"))
  insert_stat stat contents key text

-- `FromStr for MemoryStat`
unfoldable pub parse_memory_stat : Str → Parsed MemoryStat
unfolding filled_lines stat_line require_baseline
parse_memory_stat contents = do
  stat ← try_fold (stat_line contents) empty_stat (filled_lines contents)
  require_baseline contents stat.byte_values
  ok stat
