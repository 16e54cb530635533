-- ===== src/Memory/Stat/Baseline.antt =====
-- What an accepted `memory.stat` holds, and the keys that it leaves out.
use sakai.Base.{
  Bool-cases, ok, try_fold, >>=-Passes, ok-eq, ◌≡◌, subst, inl, inr, true, List, [], ◌∷◌,
}
use sakai.Decode.{parse_field, parse_count, parse_pages, parse_bytes}
use sakai.Str.{Str, codes, filled_lines}
use sakai.BTreeMap.{BTreeMap, contains_key}
use sakai.BTreeMap.Laws.{IsAscending, insert-IsAscending}
use sakai.Unit.{Bytes}
use sakai.Parse.{parse_line, key_value}
use sakai.Memory.Stat.{
  MemoryStat, empty_stat, StatField, byte_field, page_field, count_field, unknown_field, stat_field,
  insert_field, insert_stat, require_baseline, stat_line, parse_memory_stat,
}
use sakai.Memory.BytesField.{MemoryStatByteField, anon, file, byte_name, byte_ord}
use sakai.Memory.PagesField.{page_name, page_ord}
use sakai.Memory.CountsField.{count_name, count_ord}

-- The maps are in the order of their keys, with no key twice.
abbrev pub IsOrdered : MemoryStat → Type 0
IsOrdered stat =
    IsAscending stat.byte_values × IsAscending stat.page_values × IsAscending stat.count_values

insert_field-IsOrdered :
    (stat : MemoryStat) (raw text : Str) (f : StatField) (stat' : MemoryStat)
    → IsOrdered stat
    → insert_field stat raw text f ≡ ok stat'
    → IsOrdered stat'
insert_field-IsOrdered stat raw text (byte_field x) stat' (a, b, c) h =
    let (v, e, same) = >>=-Passes (parse_field parse_bytes raw (byte_name x) text) _ h in
    subst IsOrdered (ok-eq same) (insert-IsAscending x v stat.byte_values a, b, c)
insert_field-IsOrdered stat raw text (page_field x) stat' (a, b, c) h =
    let (v, e, same) = >>=-Passes (parse_field parse_pages raw (page_name x) text) _ h in
    subst IsOrdered (ok-eq same) (a, insert-IsAscending x v stat.page_values b, c)
insert_field-IsOrdered stat raw text (count_field x) stat' (a, b, c) h =
    let (v, e, same) = >>=-Passes (parse_field parse_count raw (count_name x) text) _ h in
    subst IsOrdered (ok-eq same) (a, b, insert-IsAscending x v stat.count_values c)
insert_field-IsOrdered stat raw text unknown_field stat' good h = subst IsOrdered (ok-eq h) good

line-IsOrdered :
    (contents : Str) (stat next : MemoryStat) (l : Str)
    → IsOrdered stat
    → stat_line contents stat l ≡ ok next
    → IsOrdered next
unfolding stat_line insert_stat
line-IsOrdered contents stat next l good h =
    let (kv, e, inserted) =
      >>=-Passes (parse_line contents l (key_value (λ _. codes "value"))) _ h in
    insert_field-IsOrdered stat contents kv.1 (stat_field kv.0) next good inserted

lines-IsOrdered :
    (contents : Str) (ls : List Str) (stat stat' : MemoryStat)
    → IsOrdered stat
    → try_fold (stat_line contents) stat ls ≡ ok stat'
    → IsOrdered stat'
lines-IsOrdered contents [] stat stat' good h = subst IsOrdered (ok-eq h) good
lines-IsOrdered contents (l ∷ ls) stat stat' good h =
    let (next, e, rest) = >>=-Passes (stat_line contents stat l) _ h in
    lines-IsOrdered contents ls next stat' (line-IsOrdered contents stat next l good e) rest

has_baseline :
    (raw : Str) (m : BTreeMap MemoryStatByteField Bytes)
    → require_baseline raw m ≡ ok tt
    → (contains_key anon m ≡ true) × (contains_key file m ≡ true)
unfolding require_baseline
has_baseline raw m h = elim (Bool-cases (contains_key anon m)) [
  | inr absent ↦ cc (rw absent at h)
  | inl first ↦ elim (Bool-cases (contains_key file m)) [
    | inr absent ↦ cc (rw (first, absent) at h)
    | inl second ↦ (first, second)
  ]
]

-- An accepted `memory.stat` has the fields that every kernel writes, `anon` and `file`, and its maps are
-- in the order of their keys, with no key twice.
pub parse_memory_stat-baseline :
    (contents : Str) (stat : MemoryStat)
    → parse_memory_stat contents ≡ ok stat
    → (contains_key anon stat.byte_values ≡ true)
      × (contains_key file stat.byte_values ≡ true)
      × IsOrdered stat
unfolding parse_memory_stat
parse_memory_stat-baseline contents stat h =
    let (read, e, h1) =
      >>=-Passes (try_fold (stat_line contents) empty_stat (filled_lines contents)) _ h in
    let (done, e1, same) = >>=-Passes (require_baseline contents read.byte_values) _ h1 in
    let ordered = lines-IsOrdered contents (filled_lines contents) empty_stat read (tt, tt, tt) e in
    let (has_anon, has_file) = has_baseline contents read.byte_values e1 in
    subst
      (λ (s : MemoryStat).
        (contains_key anon s.byte_values ≡ true)
        × (contains_key file s.byte_values ≡ true)
        × IsOrdered s)
      (ok-eq same) (has_anon, has_file, ordered)
