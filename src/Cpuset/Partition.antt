-- ===== src/Cpuset/Partition.antt =====
-- `cpuset.cpus.partition`, sakai/src/cgroup/v2/cpuset/partition.rs.
pub mod RoundTrip
use sakai.Base.{
  ◌==◌, if◌then◌else◌, all, ok, err, Bool, true, false, not, ◌&&◌, ◌||◌, Option, none, some, [],
  ◌∷◌,
}
use sakai.Error.{out_of_range, missing, invalid, Parsed}
use sakai.Str.{Str, codes, str_eq, is_whitespace, strip_suffix, trim, is_blank, split_once_str}

pub data CpusetPartition : Type 0 where
  member root isolated : CpusetPartition
  root_invalid isolated_invalid : Option Str → CpusetPartition

unfoldable pub state : CpusetPartition → Str
state member = codes "member"
state root = codes "root"
state (root_invalid reason) = codes "root"
state isolated = codes "isolated"
state (isolated_invalid reason) = codes "isolated"

unfoldable pub is_invalid : CpusetPartition → Bool
is_invalid (root_invalid reason) = true
is_invalid (isolated_invalid reason) = true
is_invalid _ = false

unfoldable pub reason_of : CpusetPartition → Option Str
reason_of (root_invalid reason) = reason
reason_of (isolated_invalid reason) = reason
reason_of _ = none

-- The filter on the reason: not blank, and on one line.
unfoldable pub is_reason : Str → Bool
unfolding is_blank is_whitespace
is_reason reason = not (is_blank reason) && all (λ c. not (c == b'\n' || c == b'\r')) reason

unfoldable pub reason_in : Option Str → Option Str
unfolding is_reason
reason_in none = none
reason_in (some reason) = if is_reason reason then some reason else none

module _ (raw value : Str) where
  abbrev not_partition {ℓ} : {T : Type ℓ} → Parsed T
  not_partition = err (invalid raw (codes "partition") value out_of_range)

  abbrev with_state : Str → Str → Parsed CpusetPartition
  with_state text reason =
      if str_eq text (codes "root")
      then ok (root_invalid (some reason))
      else if str_eq text (codes "isolated")
      then ok (isolated_invalid (some reason))
      else not_partition

  abbrev with_reason : Str → Option Str → Parsed CpusetPartition
  with_reason text none = not_partition
  with_reason text (some reason) = with_state text reason

  abbrev with_parts : Option (Str × Str) → Parsed CpusetPartition
  with_parts none = not_partition
  with_parts (some (text, rest)) = with_reason text (reason_in (strip_suffix (b')' ∷ []) rest))

  unfoldable pub partition_of : Parsed CpusetPartition
  unfolding str_eq missing invalid split_once_str strip_suffix reason_in
  partition_of =
      if str_eq value []
      then err (missing raw (codes "partition"))
      else if str_eq value (codes "member")
      then ok member
      else if str_eq value (codes "root")
      then ok root
      else if str_eq value (codes "isolated")
      then ok isolated
      else if str_eq value (codes "root invalid")
      then ok (root_invalid none)
      else if str_eq value (codes "isolated invalid")
      then ok (isolated_invalid none)
      else with_parts (split_once_str (codes " invalid (") value)

-- `FromStr for CpusetPartition`
unfoldable pub parse_partition : Str → Parsed CpusetPartition
unfolding partition_of trim is_whitespace
parse_partition raw = partition_of raw (trim raw)
