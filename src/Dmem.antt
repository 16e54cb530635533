-- ===== src/Dmem.antt =====
-- The device-memory controller's files, sakai/src/cgroup/v2/dmem.rs. The snapshots hold the map of
-- the regions alone; `current`, `peak` and the limits share an encoding.
pub mod Readers
use sakai.Base.{◌>>=◌, ◌>>◌}
use sakai.BTreeMap.{BTreeMap}
use sakai.Decode.{Decoder, parse_bytes, max_or}
use sakai.Error.{Parsed}
use sakai.Parse.{keyed_fields, parse_values}
use sakai.Str.{Str, codes}
use sakai.Unit.{Bytes, MaxOr}

-- `parse_regions`
unfoldable pub parse_regions {ℓ} : {T : Type ℓ} → Decoder T → Str → Parsed (BTreeMap Str T)
unfolding keyed_fields parse_values
parse_regions decode contents = do
  fields ← keyed_fields contents (λ _. codes "bytes")
  parse_values decode fields (codes "bytes")

-- `FromStr for DmemCapacity`
unfoldable pub parse_dmem_capacity : Str → Parsed (BTreeMap Str Bytes)
unfolding parse_regions parse_bytes
parse_dmem_capacity contents = parse_regions parse_bytes contents

-- `FromStr` for `DmemCurrent`, `DmemPeak` and `DmemLimits`
unfoldable pub parse_dmem_usage : Str → Parsed (BTreeMap Str (MaxOr Bytes))
unfolding parse_regions parse_bytes max_or
parse_dmem_usage contents = parse_regions (max_or parse_bytes) contents
