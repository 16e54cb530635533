-- ===== src/Memory/BytesField.antt =====
-- The fields of `memory.stat` that count bytes, sakai/src/cgroup/v2/memory/stat.rs.
use sakai.Base.{get_elem?, ℕ, ◌≡◌, refl, ap, some, List, [], ◌∷◌}
use sakai.BTreeMap.Order.{Ord, index_ord}
use sakai.Str.{Str, codes}
use sakai.Strum.{from_name}

pub data MemoryStatByteField : Type 0 where
  anon file kernel kernel_stack pagetables sec_pagetables percpu sock : MemoryStatByteField
  vmalloc shmem zswap zswap_incomp zswapped file_mapped file_dirty : MemoryStatByteField
  file_writeback swapcached anon_thp file_thp shmem_thp inactive_anon : MemoryStatByteField
  active_anon inactive_file active_file unevictable slab_reclaimable : MemoryStatByteField
  slab_unreclaimable slab hugetlb : MemoryStatByteField

-- The names that `strum` derives.
unfoldable pub byte_name : MemoryStatByteField → Str
byte_name anon = codes "anon"
byte_name file = codes "file"
byte_name kernel = codes "kernel"
byte_name kernel_stack = codes "kernel_stack"
byte_name pagetables = codes "pagetables"
byte_name sec_pagetables = codes "sec_pagetables"
byte_name percpu = codes "percpu"
byte_name sock = codes "sock"
byte_name vmalloc = codes "vmalloc"
byte_name shmem = codes "shmem"
byte_name zswap = codes "zswap"
byte_name zswap_incomp = codes "zswap_incomp"
byte_name zswapped = codes "zswapped"
byte_name file_mapped = codes "file_mapped"
byte_name file_dirty = codes "file_dirty"
byte_name file_writeback = codes "file_writeback"
byte_name swapcached = codes "swapcached"
byte_name anon_thp = codes "anon_thp"
byte_name file_thp = codes "file_thp"
byte_name shmem_thp = codes "shmem_thp"
byte_name inactive_anon = codes "inactive_anon"
byte_name active_anon = codes "active_anon"
byte_name inactive_file = codes "inactive_file"
byte_name active_file = codes "active_file"
byte_name unevictable = codes "unevictable"
byte_name slab_reclaimable = codes "slab_reclaimable"
byte_name slab_unreclaimable = codes "slab_unreclaimable"
byte_name slab = codes "slab"
byte_name hugetlb = codes "hugetlb"

-- The position of a variant in its enum.
unfoldable pub byte_index : MemoryStatByteField → ℕ
byte_index anon = 0
byte_index file = 1
byte_index kernel = 2
byte_index kernel_stack = 3
byte_index pagetables = 4
byte_index sec_pagetables = 5
byte_index percpu = 6
byte_index sock = 7
byte_index vmalloc = 8
byte_index shmem = 9
byte_index zswap = 10
byte_index zswap_incomp = 11
byte_index zswapped = 12
byte_index file_mapped = 13
byte_index file_dirty = 14
byte_index file_writeback = 15
byte_index swapcached = 16
byte_index anon_thp = 17
byte_index file_thp = 18
byte_index shmem_thp = 19
byte_index inactive_anon = 20
byte_index active_anon = 21
byte_index inactive_file = 22
byte_index active_file = 23
byte_index unevictable = 24
byte_index slab_reclaimable = 25
byte_index slab_unreclaimable = 26
byte_index slab = 27
byte_index hugetlb = 28

abbrev pub byte_fields : List MemoryStatByteField
byte_fields =
    anon ∷ file ∷ kernel ∷ kernel_stack ∷ pagetables ∷ sec_pagetables ∷ percpu ∷ sock ∷ vmalloc
    ∷ shmem ∷ zswap ∷ zswap_incomp ∷ zswapped ∷ file_mapped ∷ file_dirty ∷ file_writeback
    ∷ swapcached ∷ anon_thp ∷ file_thp ∷ shmem_thp ∷ inactive_anon ∷ active_anon ∷ inactive_file
    ∷ active_file ∷ unevictable ∷ slab_reclaimable ∷ slab_unreclaimable ∷ slab ∷ hugetlb ∷ []

get_elem?-byte_index : (x : MemoryStatByteField) → get_elem? byte_fields (byte_index x) ≡ some x
unfolding byte_index
get_elem?-byte_index anon = refl
get_elem?-byte_index _ = refl

pub byte_index-injective : (x y : MemoryStatByteField) → byte_index x ≡ byte_index y → x ≡ y
byte_index-injective x y h =
    cc (get_elem?-byte_index x, get_elem?-byte_index y, ap (get_elem? byte_fields) h)

instance abbrev pub byte_ord : Ord MemoryStatByteField
byte_ord = index_ord byte_index byte_index-injective

pub from_name-byte_name :
    (x : MemoryStatByteField) → from_name byte_name byte_fields (byte_name x) ≡ some x
unfolding from_name byte_name
from_name-byte_name anon = refl
from_name-byte_name _ = refl
