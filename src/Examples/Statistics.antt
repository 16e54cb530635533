-- ===== src/Examples/Statistics.antt =====
-- The statistics that Python is given.
use sakai.BTreeMap.Order.{str_ord}
use sakai.BTreeMap.{get}
use sakai.Examples.Files.{memory_file, memory_stat, memory_stat_parsed}
use sakai.Memory.BytesField.{MemoryStatByteField, byte_name, byte_ord}
use sakai.Memory.CountsField.{MemoryStatCountField, count_name, count_ord}
use sakai.Memory.PagesField.{MemoryStatPageField, page_name, page_ord}
use sakai.Python.Statistics.{from_memory_stat}
use sakai.Python.Statistics.Named.{from_memory_stat-get}
use sakai.Base.{◌≡◌}

from_memory_stat-get_example :
    ((x : MemoryStatByteField)
      → get (byte_name x) (from_memory_stat memory_stat).bytes ≡ get x memory_stat.byte_values)
    × ((x : MemoryStatPageField)
        → get (page_name x) (from_memory_stat memory_stat).pages ≡ get x memory_stat.page_values)
    × ((x : MemoryStatCountField)
        → get (count_name x) (from_memory_stat memory_stat).counts ≡ get x memory_stat.count_values)
from_memory_stat-get_example = from_memory_stat-get memory_file memory_stat memory_stat_parsed
