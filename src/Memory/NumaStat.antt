-- ===== src/Memory/NumaStat.antt =====
-- `memory.numa_stat`, sakai/src/cgroup/v2/memory/numa_stat.rs.
use sakai.Base.{
  if◌then◌else◌, is_empty, ok, err, ◌>>=◌, ◌>>◌, map_err, ok_or, collect, try_fold, ℕ, List, [],
  ◌∷◌, map,
}
use sakai.BTreeMap.{BTreeMap, insert, from_iter}
use sakai.BTreeMap.Order.{nat_ord}
use sakai.Decode.{Decoder, parse_field, parse_count, parse_pages, parse_bytes}
use sakai.Error.{ParseValueError, integer, out_of_range, ParseError, missing, invalid, Parsed}
use sakai.Memory.BytesField.{MemoryStatByteField, byte_name, byte_index, byte_ord}
use sakai.Memory.CountsField.{MemoryStatCountField, count_name, count_index, count_ord}
use sakai.Memory.PagesField.{MemoryStatPageField, page_name, page_index, page_ord}
use sakai.Memory.Stat.{
  StatField, byte_field, page_field, count_field, unknown_field, stat_field, require_baseline,
}
use sakai.Num.{parse_unsigned, u32_max}
use sakai.Str.{Str, codes, split_ascii_whitespace, strip_prefix, filled_lines, split_once}
use sakai.Unit.{Bytes, Count, Pages}

pub record MemoryNumaStat : Type 0 where
  pub byte_nodes : BTreeMap MemoryStatByteField (BTreeMap ℕ Bytes)
  pub page_nodes : BTreeMap MemoryStatPageField (BTreeMap ℕ Pages)
  pub count_nodes : BTreeMap MemoryStatCountField (BTreeMap ℕ Count)

abbrev pub empty_numa_stat : MemoryNumaStat
empty_numa_stat = record { byte_nodes = []; page_nodes = []; count_nodes = [] }

module _ {T : Type 0} (decode : Decoder T) (raw field : Str) where
  abbrev bad_node : Str → ParseError ParseValueError
  bad_node token = invalid raw (codes "node") token out_of_range

  -- One token: `N`, a node number, an equals sign and the value.
  unfoldable pub node_value : Str → Parsed (ℕ × T)
  unfolding split_once strip_prefix parse_unsigned parse_field invalid
  node_value token = do
    (node, text) ← ok_or (split_once b'=' token) (bad_node token)
    number ← ok_or (strip_prefix (codes "N") node) (bad_node token)
    id ← map_err (λ e. invalid raw (codes "node") token (integer e)) (parse_unsigned u32_max number)
    v ← parse_field decode raw field text
    ok (id, v)

  -- `MemoryNumaStat::parse_nodes`
  unfoldable pub parse_nodes : List Str → Parsed (BTreeMap ℕ T)
  unfolding node_value missing from_iter
  parse_nodes tokens =
      if is_empty tokens
      then err (missing raw (codes "node"))
      else (do nodes ← collect (map node_value tokens); ok (from_iter nodes))

module _ (stat : MemoryNumaStat) (raw : Str) (tokens : List Str) where
  abbrev insert_nodes : StatField → Parsed MemoryNumaStat
  insert_nodes (byte_field x) = do
    nodes ← parse_nodes parse_bytes raw (byte_name x) tokens
    ok (record stat { byte_nodes = insert x nodes stat.byte_nodes })
  insert_nodes (page_field x) = do
    nodes ← parse_nodes parse_pages raw (page_name x) tokens
    ok (record stat { page_nodes = insert x nodes stat.page_nodes })
  insert_nodes (count_field x) = do
    nodes ← parse_nodes parse_count raw (count_name x) tokens
    ok (record stat { count_nodes = insert x nodes stat.count_nodes })
  insert_nodes unknown_field = ok stat

-- `MemoryNumaStat::insert`
unfoldable pub insert_numa : MemoryNumaStat → Str → Str → List Str → Parsed MemoryNumaStat
unfolding stat_field parse_nodes parse_bytes parse_pages parse_count insert byte_index page_index
    count_index byte_name page_name count_name
insert_numa stat raw key tokens = insert_nodes stat raw tokens (stat_field key)

abbrev numa_tokens : Str → MemoryNumaStat → List Str → Parsed MemoryNumaStat
numa_tokens contents stat [] = err (missing contents (codes "key"))
numa_tokens contents stat (key ∷ tokens) = insert_numa stat contents key tokens

-- `FromStr for MemoryNumaStat`
unfoldable pub parse_numa_stat : Str → Parsed MemoryNumaStat
unfolding filled_lines split_ascii_whitespace insert_numa missing require_baseline
parse_numa_stat contents = do
  stat ←
      try_fold (λ stat line. numa_tokens contents stat (split_ascii_whitespace line))
        empty_numa_stat (filled_lines contents)
  require_baseline contents stat.byte_nodes
  ok stat
