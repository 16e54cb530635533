-- ===== src/Python/Statistics.antt =====
-- The memory statistics of the bindings: sakai-python/src/linux/memory.rs. Their maps go by the names
-- of the fields.
pub mod Named
use sakai.Memory.NumaStat.{MemoryNumaStat}
use sakai.Memory.Stat.{MemoryStat}
use sakai.Memory.CountsField.{count_name}
use sakai.Memory.PagesField.{page_name}
use sakai.Memory.BytesField.{byte_name}
use sakai.Python.Errors.{PyResult, Interpreter, python_result}
use sakai.Handle.{Kernel, Cgroup}
use sakai.Unit.{Bytes, Count, Pages, Float}
use sakai.Str.{Str}
use sakai.Base.{map_ok, ℕ, map}
use sakai.BTreeMap.Order.{nat_ord, str_ord}
use sakai.BTreeMap.{BTreeMap, from_iter}
use sakai.Memory.Readers.{stat, numa_stat}

module _ {F V W : Type 0} (name : F → Str) (convert : V → W) where
  -- An entry, by its field's name.
  abbrev pub named_entry : F × V → Str × W
  named_entry (field, v) = (name field, convert v)

  -- `MemoryValues::fields`, with the conversion of a field to its name.
  unfoldable pub fields : BTreeMap F V → BTreeMap Str W
  unfolding from_iter
  fields values = from_iter (map named_entry values)

abbrev node_entry : {V W : Type 0} → (V → W) → ℕ × V → ℕ × W
node_entry convert (node, v) = (node, convert v)

-- `MemoryValues::nodes`
unfoldable pub nodes : {V W : Type 0} → (V → W) → BTreeMap ℕ V → BTreeMap ℕ W
unfolding from_iter
nodes convert values = from_iter (map (node_entry convert) values)

pub record PythonMemoryStat : Type 0 where
  pub bytes : BTreeMap Str Bytes
  pub pages : BTreeMap Str Pages
  pub counts : BTreeMap Str Count

-- `From<CoreMemoryStat> for MemoryStat`; a quantity wraps its value.
unfoldable pub from_memory_stat : MemoryStat → PythonMemoryStat
unfolding fields byte_name page_name count_name
from_memory_stat stat = record {
  bytes = fields byte_name (λ v. v) stat.byte_values;
  pages = fields page_name (λ v. v) stat.page_values;
  counts = fields count_name (λ v. v) stat.count_values;
}

pub record PythonMemoryNumaStat : Type 0 where
  pub bytes : BTreeMap Str (BTreeMap ℕ Bytes)
  pub pages : BTreeMap Str (BTreeMap ℕ Pages)
  pub counts : BTreeMap Str (BTreeMap ℕ Count)

-- `From<CoreMemoryNumaStat> for MemoryNumaStat`
unfoldable pub from_memory_numa_stat : MemoryNumaStat → PythonMemoryNumaStat
unfolding fields nodes byte_name page_name count_name
from_memory_numa_stat stat = record {
  bytes = fields byte_name (nodes (λ v. v)) stat.byte_nodes;
  pages = fields page_name (nodes (λ v. v)) stat.page_nodes;
  counts = fields count_name (nodes (λ v. v)) stat.count_nodes;
}

module _ (py : Interpreter) (k : Kernel) (f : Float) (cgroup : Cgroup k) where
  -- `MemoryReader::stat`
  unfoldable pub python_memory_stat : PyResult PythonMemoryStat
  unfolding python_result stat from_memory_stat
  python_memory_stat = map_ok from_memory_stat (python_result py (stat k f cgroup))

  -- `MemoryReader::numa_stat`
  unfoldable pub python_memory_numa_stat : PyResult PythonMemoryNumaStat
  unfolding python_result numa_stat from_memory_numa_stat
  python_memory_numa_stat = map_ok from_memory_numa_stat (python_result py (numa_stat k f cgroup))
