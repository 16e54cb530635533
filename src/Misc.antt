-- ===== src/Misc.antt =====
-- The miscellaneous controller's files, sakai/src/cgroup/v2/misc.rs. The snapshots hold the map of
-- the resources alone.
pub mod RoundTrip
pub mod Readers
use sakai.Base.{if◌then◌else◌, is_empty, filter_map, ok, err, ◌>>=◌, ◌>>◌, collect, Option, map}
use sakai.BTreeMap.{BTreeMap, from_iter}
use sakai.BTreeMap.Order.{str_ord}
use sakai.Decode.{parse_field, parse_count, max_or}
use sakai.Error.{out_of_range, invalid, Parsed}
use sakai.Parse.{keyed_fields, parse_values}
use sakai.Str.{Str, codes, strip_suffix}
use sakai.Unit.{Count, MaxOr}
use mathlib.Core.Option

-- `FromStr` for `MiscCapacity`, `MiscCurrent` and `MiscPeak`
unfoldable pub parse_misc_counts : Str → Parsed (BTreeMap Str Count)
unfolding keyed_fields parse_values parse_count
parse_misc_counts raw = do
  fields ← keyed_fields raw (λ _. codes "value")
  parse_values parse_count fields (codes "value")

-- `FromStr for MiscMax`
unfoldable pub parse_misc_max : Str → Parsed (BTreeMap Str (MaxOr Count))
unfolding keyed_fields parse_values parse_count max_or
parse_misc_max raw = do
  fields ← keyed_fields raw (λ _. codes "value")
  parse_values (max_or parse_count) fields (codes "value")

abbrev named_max : Str × Str → Option (Str × Str)
named_max (key, text) = Option.map (λ (name : Str). (name, text)) (strip_suffix (codes ".max") key)

module _ (raw : Str) where
  abbrev misc_event : Str × Str → Parsed (Str × Count)
  misc_event (name, text) =
      if is_empty name
      then err (invalid raw (codes "resource") (codes ".max") out_of_range)
      else (do count ← parse_field parse_count raw (codes "max") text; ok (name, count))

  -- `FromStr for MiscEvents`
  unfoldable pub parse_misc_events : Parsed (BTreeMap Str Count)
  unfolding keyed_fields strip_suffix parse_field parse_count invalid from_iter
  parse_misc_events = do
    fields ← keyed_fields raw (λ _. codes "value")
    entries ← collect (map misc_event (filter_map named_max fields.values))
    ok (from_iter entries)
