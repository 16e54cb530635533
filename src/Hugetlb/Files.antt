-- ===== src/Hugetlb/Files.antt =====
-- The contents of the HugeTLB files, sakai/src/cgroup/v2/hugetlb.rs. The four scalars are made by one
-- macro, and differ in their value and in the name of their field.
use sakai.Base.{filter_map, ok, ◌>>=◌, map_err, collect, ℕ, Option, map}
use sakai.BTreeMap.{BTreeMap, from_iter}
use sakai.BTreeMap.Order.{nat_ord}
use sakai.Decode.{parse_field, parse_count, parse_bytes, max_or}
use sakai.Error.{integer, invalid, Parsed}
use sakai.Io.Device.{equation}
use sakai.Num.{parse_unsigned, u32_max}
use sakai.Parse.{single, new_fields, keyed_fields, required}
use sakai.Str.{Str, codes, split_ascii_whitespace, strip_prefix}
use sakai.Unit.{Bytes, Count, MaxOr}
use mathlib.Core.Option

-- `FromStr` for `HugetlbCurrent` and `HugetlbReservedCurrent`
unfoldable pub parse_hugetlb_current : Str → Parsed Bytes
unfolding single parse_bytes
parse_hugetlb_current contents = single parse_bytes contents (codes "current")

-- `FromStr` for `HugetlbMax` and `HugetlbReservedMax`
unfoldable pub parse_hugetlb_max : Str → Parsed (MaxOr Bytes)
unfolding single parse_bytes max_or
parse_hugetlb_max contents = single (max_or parse_bytes) contents (codes "max")

-- `FromStr for HugetlbEvents`
unfoldable pub parse_hugetlb_events : Str → Parsed Count
unfolding keyed_fields required parse_count
parse_hugetlb_events contents = do
  fields ← keyed_fields contents (λ _. codes "value")
  required parse_count fields (codes "max")

pub record HugetlbNumaStat : Type 0 where
  pub total : Bytes
  pub nodes : BTreeMap ℕ Bytes

abbrev numa_node : Str × Str → Option (Str × (Str × Str))
numa_node (key, text) =
    Option.map (λ (node : Str). (key, (node, text))) (strip_prefix (codes "N") key)

module _ (contents : Str) where
  abbrev node_usage : Str × (Str × Str) → Parsed (ℕ × Bytes)
  node_usage (key, (node, text)) = do
    id ←
        map_err (λ e. invalid contents (codes "node") key (integer e)) (parse_unsigned u32_max node)
    usage ← parse_field parse_bytes contents (codes "usage") text
    ok (id, usage)

  -- `FromStr for HugetlbNumaStat`
  unfoldable pub parse_hugetlb_numa_stat : Parsed HugetlbNumaStat
  unfolding new_fields split_ascii_whitespace equation required parse_bytes strip_prefix
      parse_unsigned parse_field invalid from_iter
  parse_hugetlb_numa_stat = do
    fields ← new_fields contents (map (equation contents) (split_ascii_whitespace contents))
    total ← required parse_bytes fields (codes "total")
    nodes ← collect (map node_usage (filter_map numa_node fields.values))
    ok (record { total = total; nodes = from_iter nodes })
