-- ===== src/Scalar/Names.antt =====
-- No two scalar interfaces share a file.
use sakai.Base.{◌≡◌, refl, ap, some, List, [], ◌∷◌}
use sakai.Strum.{from_name}
use sakai.Scalar.{
  Interface, cgroup_freeze, cgroup_max_depth, cgroup_max_descendants, cgroup_pressure, pids_current,
  pids_peak, pids_max, memory_oom_group, memory_current, memory_peak, memory_max, memory_high,
  memory_low, memory_min, swap_current, swap_peak, swap_max, swap_high, zswap_current, zswap_max,
  zswap_writeback, cpu_idle, cpu_max_burst, cpu_uclamp_min, cpu_uclamp_max, file_name,
}

abbrev interfaces : List Interface
interfaces =
    cgroup_freeze ∷ cgroup_max_depth ∷ cgroup_max_descendants ∷ cgroup_pressure ∷ pids_current
    ∷ pids_peak ∷ pids_max ∷ memory_oom_group ∷ memory_current ∷ memory_peak ∷ memory_max
    ∷ memory_high ∷ memory_low ∷ memory_min ∷ swap_current ∷ swap_peak ∷ swap_max ∷ swap_high
    ∷ zswap_current ∷ zswap_max ∷ zswap_writeback ∷ cpu_idle ∷ cpu_max_burst ∷ cpu_uclamp_min
    ∷ cpu_uclamp_max ∷ []

from_name-file_name : (i : Interface) → from_name file_name interfaces (file_name i) ≡ some i
unfolding from_name file_name
from_name-file_name cgroup_freeze = refl
from_name-file_name _ = refl

-- An interface is known by its file: two scalar interfaces with one file name are one interface.
pub file_name-injective : (i j : Interface) → file_name i ≡ file_name j → i ≡ j
file_name-injective i j h =
    cc (from_name-file_name i, from_name-file_name j, ap (from_name file_name interfaces) h)
