-- ===== src/Cpu/Limits/Ranges.antt =====
-- The values that `cpu.weight` can take, sakai/src/cgroup/v2/cpu/weight.rs.
use sakai.Base.{ltb, ◌==◌, if◌then◌else◌, Result, ok, err, ℕ, ◌≤◌, ◌≡◌, arith}
use sakai.Num.{u16_max, print}
use sakai.Decode.Sound.{unsigned-print}
use sakai.Error.{ParseValueError, out_of_range}
use sakai.Cpu.Limits.{try_new_weight, CpuWeight, idle, shares, decode_cpu_weight}

-- What a number in `cpu.weight` stands for.
abbrev pub weight_of : ℕ → Result ParseValueError CpuWeight
weight_of n =
    if n == 0
    then ok idle
    else if ltb 10000 n
    then err out_of_range
    else ok (shares (record { weight = n }))

-- A number of 16 bits in `cpu.weight` is the idle policy if it is 0, a weight if it is from 1 to 10000,
-- and out of range above.
pub decode_cpu_weight-print : (n : ℕ) → n ≤ u16_max → decode_cpu_weight (print n) ≡ weight_of n
unfolding decode_cpu_weight try_new_weight
decode_cpu_weight-print n h = rw (unsigned-print u16_max n h) (ground arith)
