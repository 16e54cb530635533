-- ===== src/Cpuset/IdList.antt =====
-- The lists of CPUs and memory nodes, sakai/src/cgroup/v2/cpuset/list.rs. `CpuList` and
-- `MemoryNodeList` are made by one macro, and differ in the name of their field.
pub mod Sound
pub mod Members
pub mod RoundTrip
use sakai.Base.{
  ltb, leb, ◌==◌, if◌then◌else◌, is_empty, any, all, ok, err, ◌>>=◌, ◌>>◌, map_err, collect, ℕ,
  zero, suc, ◌+◌, ◌-◌, Bool, true, not, ◌&&◌, Option, none, some, List, [], ◌∷◌, ◌++◌, map,
}
use sakai.Num.{is_digit, parse_unsigned, u32_max}
use sakai.Error.{ParseValueError, integer, out_of_range, invalid, Parsed}
use sakai.Str.{Str, codes, is_whitespace, split, trim, split_once}

-- `RangeInclusive<u32>`
pub record IdRange : Type 0 where
  pub start : ℕ
  pub last : ℕ

pub record IdList : Type 0 where
  pub ranges : List IdRange

module _ (raw field part : Str) where
  -- The closure `invalid`.
  abbrev bad_part {ℓ} : {T : Type ℓ} → ParseValueError → Parsed T
  bad_part source = err (invalid raw field part source)

  -- The closure `number`: digits alone, without the sign that `parse` would accept.
  unfoldable pub id_number : Str → Parsed ℕ
  unfolding is_digit parse_unsigned invalid
  id_number text =
      if not (is_empty text) && all is_digit text
      then map_err (λ e. invalid raw field part (integer e)) (parse_unsigned u32_max text)
      else bad_part out_of_range

  abbrev bounds : Option (Str × Str) → Parsed (ℕ × ℕ)
  bounds (some (start, last)) = do s ← id_number start; l ← id_number last; ok (s, l)
  bounds none = do id ← id_number part; ok (id, id)

  -- One element between the commas.
  unfoldable pub id_range : Parsed IdRange
  unfolding split_once
  id_range = do
    (start, last) ← bounds (split_once b'-' part)
    if leb start last then ok (record { start = start; last = last }) else bad_part out_of_range

-- The test on each range and the one behind it.
unfoldable pub is_ascending : List IdRange → Bool
is_ascending [] = true
is_ascending (r ∷ []) = true
is_ascending (r ∷ s ∷ rs) = ltb r.last s.start && is_ascending (s ∷ rs)

module _ (raw field text : Str) where
  -- The ranges of the trimmed text.
  unfoldable pub ranges_of : Parsed (List IdRange)
  unfolding split id_range id_number
  ranges_of =
      if is_empty text
      then ok []
      else collect (map (id_range raw field) (split (λ c. c == b',') text))

  -- The test that the ranges ascend.
  unfoldable pub list_of : List IdRange → Parsed IdList
  unfolding is_ascending invalid
  list_of ranges =
      if is_ascending ranges
      then ok (record { ranges = ranges })
      else err (invalid raw field text out_of_range)

-- `IdList::parse`
unfoldable pub parse_ids : Str → Str → Parsed IdList
unfolding trim is_whitespace ranges_of list_of
parse_ids raw field = do
  ranges ← ranges_of raw field (trim raw)
  list_of raw field (trim raw) ranges

-- `FromStr for CpuList`
unfoldable pub parse_cpu_list : Str → Parsed IdList
unfolding parse_ids
parse_cpu_list raw = parse_ids raw (codes "cpus")

-- `FromStr for MemoryNodeList`
unfoldable pub parse_memory_node_list : Str → Parsed IdList
unfolding parse_ids
parse_memory_node_list raw = parse_ids raw (codes "mems")

-- The numbers from `start` on, as many as `rounds`.
unfoldable pub count_up : ℕ → ℕ → List ℕ
count_up zero start = []
count_up (suc rounds) start = start ∷ count_up rounds (start + 1)

-- `ids`: every number of every range, in turn.
unfoldable pub ids : List IdRange → List ℕ
unfolding count_up
ids [] = []
ids (r ∷ rs) = count_up (r.last + 1 - r.start) r.start ++ ids rs

-- `contains`
unfoldable pub contains : List IdRange → ℕ → Bool
contains rs id = any (λ r. leb r.start id && leb id r.last) rs
