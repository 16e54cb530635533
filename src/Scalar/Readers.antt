-- ===== src/Scalar/Readers.antt =====
-- Reading an interface of one value from a handle: sakai/src/scalar.rs and cgroup/v2/handle.rs.
use sakai.Unit.{Float}
use sakai.Handle.{Kernel, Fallible, Cgroup, parse}
use sakai.Scalar.{Interface, file_name, value_of, Scalar, parse_scalar}

module _ (k : Kernel) (f : Float) (cgroup : Cgroup k) where
  -- The type of an interface's snapshot.
  abbrev pub Snapshot : Interface → Type 0
  Snapshot i = Scalar f (value_of i) i

  -- `Cgroup::parse` at the interface's file and snapshot.
  unfoldable pub read_scalar : (i : Interface) → Fallible (Snapshot i)
  unfolding parse parse_scalar file_name value_of
  read_scalar i = parse k (parse_scalar f (value_of i) i) cgroup (file_name i)
