-- ===== src/Memory/ZswapReaders.antt =====
-- Reading the files from a handle: the methods of `Zswap` in sakai/src/cgroup/v2/memory/zswap.rs.
use sakai.Unit.{Float}
use sakai.Scalar.{zswap_current, zswap_max, zswap_writeback}
use sakai.Scalar.Readers.{Snapshot, read_scalar}
use sakai.Handle.{Kernel, Fallible, Cgroup}

module _ (k : Kernel) (f : Float) (cgroup : Cgroup k) where
  -- `Zswap::current`
  unfoldable pub current : Fallible (Snapshot k f cgroup zswap_current)
  unfolding read_scalar
  current = read_scalar k f cgroup zswap_current

  -- `Zswap::max`
  unfoldable pub max : Fallible (Snapshot k f cgroup zswap_max)
  unfolding read_scalar
  max = read_scalar k f cgroup zswap_max

  -- `Zswap::writeback`
  unfoldable pub writeback : Fallible (Snapshot k f cgroup zswap_writeback)
  unfolding read_scalar
  writeback = read_scalar k f cgroup zswap_writeback
