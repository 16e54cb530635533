-- ===== src/Memory/CountsField.antt =====
-- The fields of `memory.stat` that count events, sakai/src/cgroup/v2/memory/stat.rs.
use sakai.Base.{get_elem?, ℕ, ◌≡◌, refl, ap, some, List, [], ◌∷◌}
use sakai.BTreeMap.Order.{Ord, index_ord}
use sakai.Str.{Str, codes}
use sakai.Strum.{from_name}

pub data MemoryStatCountField : Type 0 where
  workingset_refault_anon workingset_refault_file : MemoryStatCountField
  workingset_activate_anon workingset_activate_file : MemoryStatCountField
  workingset_restore_anon workingset_restore_file workingset_nodereclaim : MemoryStatCountField
  pgfault pgmajfault thp_fault_alloc thp_collapse_alloc thp_swpout : MemoryStatCountField
  thp_swpout_fallback numa_hint_faults : MemoryStatCountField

-- The names that `strum` derives.
unfoldable pub count_name : MemoryStatCountField → Str
count_name workingset_refault_anon = codes "workingset_refault_anon"
count_name workingset_refault_file = codes "workingset_refault_file"
count_name workingset_activate_anon = codes "workingset_activate_anon"
count_name workingset_activate_file = codes "workingset_activate_file"
count_name workingset_restore_anon = codes "workingset_restore_anon"
count_name workingset_restore_file = codes "workingset_restore_file"
count_name workingset_nodereclaim = codes "workingset_nodereclaim"
count_name pgfault = codes "pgfault"
count_name pgmajfault = codes "pgmajfault"
count_name thp_fault_alloc = codes "thp_fault_alloc"
count_name thp_collapse_alloc = codes "thp_collapse_alloc"
count_name thp_swpout = codes "thp_swpout"
count_name thp_swpout_fallback = codes "thp_swpout_fallback"
count_name numa_hint_faults = codes "numa_hint_faults"

-- The position of a variant in its enum.
unfoldable pub count_index : MemoryStatCountField → ℕ
count_index workingset_refault_anon = 0
count_index workingset_refault_file = 1
count_index workingset_activate_anon = 2
count_index workingset_activate_file = 3
count_index workingset_restore_anon = 4
count_index workingset_restore_file = 5
count_index workingset_nodereclaim = 6
count_index pgfault = 7
count_index pgmajfault = 8
count_index thp_fault_alloc = 9
count_index thp_collapse_alloc = 10
count_index thp_swpout = 11
count_index thp_swpout_fallback = 12
count_index numa_hint_faults = 13

abbrev pub count_fields : List MemoryStatCountField
count_fields =
    workingset_refault_anon ∷ workingset_refault_file ∷ workingset_activate_anon
    ∷ workingset_activate_file ∷ workingset_restore_anon ∷ workingset_restore_file
    ∷ workingset_nodereclaim ∷ pgfault ∷ pgmajfault ∷ thp_fault_alloc ∷ thp_collapse_alloc
    ∷ thp_swpout ∷ thp_swpout_fallback ∷ numa_hint_faults ∷ []

get_elem?-count_index : (x : MemoryStatCountField) → get_elem? count_fields (count_index x) ≡ some x
unfolding count_index
get_elem?-count_index workingset_refault_anon = refl
get_elem?-count_index _ = refl

pub count_index-injective : (x y : MemoryStatCountField) → count_index x ≡ count_index y → x ≡ y
count_index-injective x y h =
    cc (get_elem?-count_index x, get_elem?-count_index y, ap (get_elem? count_fields) h)

instance abbrev pub count_ord : Ord MemoryStatCountField
count_ord = index_ord count_index count_index-injective

pub from_name-count_name :
    (x : MemoryStatCountField) → from_name count_name count_fields (count_name x) ≡ some x
unfolding from_name count_name
from_name-count_name workingset_refault_anon = refl
from_name-count_name _ = refl
