-- ===== src/Cpuset/Partition/RoundTrip.antt =====
-- Printing a partition state and parsing it back.
use sakai.Base.{
  ◌==◌, ok, ℕ, ◌≡◌, refl, true, Option, none, some, [], ◌∷◌, ◌++◌, reverse, reverse-append,
  reverse-reverse,
}
use sakai.Str.{Str, codes, is_whitespace, strip_prefix, strip_suffix, trim}
use sakai.Str.Trim.{SolidHead, trim-line}
use sakai.Cpuset.Partition.{
  CpusetPartition, member, root, isolated, root_invalid, isolated_invalid, is_reason, partition_of,
  parse_partition,
}

abbrev suffix_of : Option Str → Str
suffix_of none = codes " invalid"
suffix_of (some reason) = codes " invalid (" ++ (reason ++ b')' ∷ [])

-- What the kernel prints of a state.
abbrev pub show_partition : CpusetPartition → Str
show_partition member = codes "member"
show_partition root = codes "root"
show_partition isolated = codes "isolated"
show_partition (root_invalid reason) = codes "root" ++ suffix_of reason
show_partition (isolated_invalid reason) = codes "isolated" ++ suffix_of reason

-- A reason that is shown at all is one that the parser's filter lets through.
abbrev pub HasReason : CpusetPartition → Type 0
HasReason (root_invalid (some reason)) = is_reason reason ≡ true
HasReason (isolated_invalid (some reason)) = is_reason reason ≡ true
HasReason _ = Unit

last_solid : (s : Str) → SolidHead (reverse (s ++ b')' ∷ []))
last_solid s = rw (reverse-append s (b')' ∷ [])) (unfold is_whitespace in refl)

trim_shown : (p : CpusetPartition) → trim (show_partition p ++ b'\n' ∷ []) ≡ show_partition p
unfolding is_whitespace
trim_shown member = trim-line _ refl refl
trim_shown root = trim-line _ refl refl
trim_shown isolated = trim-line _ refl refl
trim_shown (root_invalid none) = trim-line _ refl refl
trim_shown (isolated_invalid none) = trim-line _ refl refl
trim_shown (root_invalid (some reason)) =
    trim-line _ refl (last_solid (codes "root invalid (" ++ reason))
trim_shown (isolated_invalid (some reason)) =
    trim-line _ refl (last_solid (codes "isolated invalid (" ++ reason))

strip_suffix-append :
    (s : Str) (c : ℕ) → (c == c) ≡ true → strip_suffix (c ∷ []) (s ++ c ∷ []) ≡ some s
unfolding strip_suffix strip_prefix
strip_suffix-append s c h = rw (reverse-append s (c ∷ []), h, reverse-reverse)

partition_of-shown :
    (raw : Str) (p : CpusetPartition) → HasReason p → partition_of raw (show_partition p) ≡ ok p
unfolding partition_of
partition_of-shown raw member h = refl
partition_of-shown raw root h = refl
partition_of-shown raw isolated h = refl
partition_of-shown raw (root_invalid none) h = refl
partition_of-shown raw (isolated_invalid none) h = refl
partition_of-shown raw (root_invalid (some reason)) h =
    rw (strip_suffix-append reason b')' refl) (rw h)
partition_of-shown raw (isolated_invalid (some reason)) h =
    rw (strip_suffix-append reason b')' refl) (rw h)

-- A state as the kernel prints it is read back as it was, with its reason if it is invalid for one that
-- is not blank and stands on one line.
pub parse_partition-show_partition :
    (p : CpusetPartition) → HasReason p → parse_partition (show_partition p ++ b'\n' ∷ []) ≡ ok p
unfolding parse_partition
parse_partition-show_partition p h =
    rw (trim_shown p) (partition_of-shown (show_partition p ++ b'\n' ∷ []) p h)
