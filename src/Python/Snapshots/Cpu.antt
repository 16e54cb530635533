-- ===== src/Python/Snapshots/Cpu.antt =====
-- The CPU snapshots of the bindings: sakai-python/src/linux/cpu.rs.
use sakai.Base.{ℕ, Bool, true, false, Option, none, some}
use sakai.Python.Limit.{PythonMaxOr, from_time, from_ratio}
use sakai.Unit.{Time, Count, Float}
use sakai.Cpu.Stat.{CpuTimeStat, CpuBurstStat, CpuBandwidthStat, CpuStat, CpuStatLocal}
use sakai.Cpu.Limits
use sakai.Cpu.Limits.{CpuMax, CpuWeight, idle, shares}
use mathlib.Core.Option

pub record PythonCpuTimeStat : Type 0 where
  pub usage : Time
  pub user : Time
  pub system : Time
  pub nice : Option Time
  pub force_idle : Option Time

-- `From<CoreCpuTimeStat> for CpuTimeStat`
unfoldable pub from_time_stat : CpuTimeStat → PythonCpuTimeStat
from_time_stat v = record {
  usage = v.usage;
  user = v.user;
  system = v.system;
  nice = v.nice;
  force_idle = v.force_idle;
}

pub record PythonCpuBurstStat : Type 0 where
  pub nr_bursts : Count
  pub burst : Time

-- `From<CoreCpuBurstStat> for CpuBurstStat`
unfoldable pub from_burst_stat : CpuBurstStat → PythonCpuBurstStat
from_burst_stat v = record { nr_bursts = v.nr_bursts; burst = v.burst }

pub record PythonCpuBandwidthStat : Type 0 where
  pub nr_periods : Count
  pub nr_throttled : Count
  pub throttled : Time
  pub burst : Option PythonCpuBurstStat

-- `From<CoreCpuBandwidthStat> for CpuBandwidthStat`
unfoldable pub from_bandwidth_stat : CpuBandwidthStat → PythonCpuBandwidthStat
unfolding from_burst_stat
from_bandwidth_stat v = record {
  nr_periods = v.nr_periods;
  nr_throttled = v.nr_throttled;
  throttled = v.throttled;
  burst = Option.map from_burst_stat v.burst;
}

pub record PythonCpuStat : Type 0 where
  pub time : PythonCpuTimeStat
  pub bandwidth : Option PythonCpuBandwidthStat

-- `From<CoreCpuStat> for CpuStat`
unfoldable pub from_cpu_stat : CpuStat → PythonCpuStat
unfolding from_time_stat from_bandwidth_stat
from_cpu_stat v = record {
  time = from_time_stat v.time;
  bandwidth = Option.map from_bandwidth_stat v.bandwidth;
}

pub record PythonCpuStatLocal : Type 0 where
  pub throttled : Option Time

-- `From<CoreCpuStatLocal> for CpuStatLocal`
unfoldable pub from_cpu_stat_local : CpuStatLocal → PythonCpuStatLocal
from_cpu_stat_local v = record { throttled = v.throttled }

pub record PythonCpuMax (f : Float) : Type 0 where
  pub quota : PythonMaxOr f
  pub period : Time
  pub cpu_count : PythonMaxOr f

-- `From<CoreCpuMax> for CpuMax`
unfoldable pub from_cpu_max : {f : Float} → CpuMax → PythonCpuMax f
unfolding from_time from_ratio Limits.cpu_count
from_cpu_max {f = f} v = record {
  quota = from_time v.quota;
  period = v.period.time;
  cpu_count = from_ratio (Limits.cpu_count f v);
}

pub record PythonCpuWeight : Type 0 where
  pub is_idle : Bool
  pub weight : Option ℕ

-- `From<CoreCpuWeight> for CpuWeight`
unfoldable pub from_cpu_weight : CpuWeight → PythonCpuWeight
from_cpu_weight idle = record { is_idle = true; weight = none }
from_cpu_weight (shares w) = record { is_idle = false; weight = some w.weight }
