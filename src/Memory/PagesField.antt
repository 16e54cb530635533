-- ===== src/Memory/PagesField.antt =====
-- The fields of `memory.stat` that count pages, sakai/src/cgroup/v2/memory/stat.rs.
use sakai.Base.{get_elem?, ℕ, ◌≡◌, refl, ap, some, List, [], ◌∷◌}
use sakai.BTreeMap.Order.{Ord, index_ord}
use sakai.Str.{Str, codes}
use sakai.Strum.{from_name}

pub data MemoryStatPageField : Type 0 where
  pswpin pswpout pgscan pgsteal pgscan_kswapd pgscan_direct : MemoryStatPageField
  pgscan_khugepaged pgscan_proactive pgsteal_kswapd pgsteal_direct : MemoryStatPageField
  pgsteal_khugepaged pgsteal_proactive pgrefill pgactivate pgdeactivate : MemoryStatPageField
  pglazyfree pglazyfreed swpin_zero swpout_zero zswpin zswpout zswpwb : MemoryStatPageField
  numa_pages_migrated numa_pte_updates pgdemote_kswapd pgdemote_direct : MemoryStatPageField
  pgdemote_khugepaged pgdemote_proactive pgpromote_success : MemoryStatPageField

-- The names that `strum` derives.
unfoldable pub page_name : MemoryStatPageField → Str
page_name pswpin = codes "pswpin"
page_name pswpout = codes "pswpout"
page_name pgscan = codes "pgscan"
page_name pgsteal = codes "pgsteal"
page_name pgscan_kswapd = codes "pgscan_kswapd"
page_name pgscan_direct = codes "pgscan_direct"
page_name pgscan_khugepaged = codes "pgscan_khugepaged"
page_name pgscan_proactive = codes "pgscan_proactive"
page_name pgsteal_kswapd = codes "pgsteal_kswapd"
page_name pgsteal_direct = codes "pgsteal_direct"
page_name pgsteal_khugepaged = codes "pgsteal_khugepaged"
page_name pgsteal_proactive = codes "pgsteal_proactive"
page_name pgrefill = codes "pgrefill"
page_name pgactivate = codes "pgactivate"
page_name pgdeactivate = codes "pgdeactivate"
page_name pglazyfree = codes "pglazyfree"
page_name pglazyfreed = codes "pglazyfreed"
page_name swpin_zero = codes "swpin_zero"
page_name swpout_zero = codes "swpout_zero"
page_name zswpin = codes "zswpin"
page_name zswpout = codes "zswpout"
page_name zswpwb = codes "zswpwb"
page_name numa_pages_migrated = codes "numa_pages_migrated"
page_name numa_pte_updates = codes "numa_pte_updates"
page_name pgdemote_kswapd = codes "pgdemote_kswapd"
page_name pgdemote_direct = codes "pgdemote_direct"
page_name pgdemote_khugepaged = codes "pgdemote_khugepaged"
page_name pgdemote_proactive = codes "pgdemote_proactive"
page_name pgpromote_success = codes "pgpromote_success"

-- The position of a variant in its enum.
unfoldable pub page_index : MemoryStatPageField → ℕ
page_index pswpin = 0
page_index pswpout = 1
page_index pgscan = 2
page_index pgsteal = 3
page_index pgscan_kswapd = 4
page_index pgscan_direct = 5
page_index pgscan_khugepaged = 6
page_index pgscan_proactive = 7
page_index pgsteal_kswapd = 8
page_index pgsteal_direct = 9
page_index pgsteal_khugepaged = 10
page_index pgsteal_proactive = 11
page_index pgrefill = 12
page_index pgactivate = 13
page_index pgdeactivate = 14
page_index pglazyfree = 15
page_index pglazyfreed = 16
page_index swpin_zero = 17
page_index swpout_zero = 18
page_index zswpin = 19
page_index zswpout = 20
page_index zswpwb = 21
page_index numa_pages_migrated = 22
page_index numa_pte_updates = 23
page_index pgdemote_kswapd = 24
page_index pgdemote_direct = 25
page_index pgdemote_khugepaged = 26
page_index pgdemote_proactive = 27
page_index pgpromote_success = 28

abbrev pub page_fields : List MemoryStatPageField
page_fields =
    pswpin ∷ pswpout ∷ pgscan ∷ pgsteal ∷ pgscan_kswapd ∷ pgscan_direct ∷ pgscan_khugepaged
    ∷ pgscan_proactive ∷ pgsteal_kswapd ∷ pgsteal_direct ∷ pgsteal_khugepaged ∷ pgsteal_proactive
    ∷ pgrefill ∷ pgactivate ∷ pgdeactivate ∷ pglazyfree ∷ pglazyfreed ∷ swpin_zero ∷ swpout_zero
    ∷ zswpin ∷ zswpout ∷ zswpwb ∷ numa_pages_migrated ∷ numa_pte_updates ∷ pgdemote_kswapd
    ∷ pgdemote_direct ∷ pgdemote_khugepaged ∷ pgdemote_proactive ∷ pgpromote_success ∷ []

get_elem?-page_index : (x : MemoryStatPageField) → get_elem? page_fields (page_index x) ≡ some x
unfolding page_index
get_elem?-page_index pswpin = refl
get_elem?-page_index _ = refl

pub page_index-injective : (x y : MemoryStatPageField) → page_index x ≡ page_index y → x ≡ y
page_index-injective x y h =
    cc (get_elem?-page_index x, get_elem?-page_index y, ap (get_elem? page_fields) h)

instance abbrev pub page_ord : Ord MemoryStatPageField
page_ord = index_ord page_index page_index-injective

pub from_name-page_name :
    (x : MemoryStatPageField) → from_name page_name page_fields (page_name x) ≡ some x
unfolding from_name page_name
from_name-page_name pswpin = refl
from_name-page_name _ = refl
