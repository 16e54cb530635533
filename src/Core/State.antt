-- ===== src/Core/State.antt =====
-- `cgroup.events`, `cgroup.stat` and `cgroup.stat.local`, sakai/src/cgroup/v2/core/state.rs.
use sakai.Base.{if◌then◌else◌, is_empty, filter_map, ok, err, ◌>>=◌, collect, Bool, Option, map}
use sakai.BTreeMap.{BTreeMap, from_iter}
use sakai.BTreeMap.Order.{str_ord}
use sakai.Core.Controller.{CgroupController, controller_name, controller_from}
use sakai.Decode.{parse_field, parse_boolean, parse_count, parse_microseconds}
use sakai.Error.{out_of_range, invalid, Parsed}
use sakai.Str.{Str, codes, strip_prefix}
use sakai.Unit.{Time, Count}
use sakai.Parse.{KeyedFields, keyed_fields, required, optional}
use mathlib.Core.Option

pub record CgroupEvents : Type 0 where
  pub populated : Bool
  pub frozen : Option Bool

-- `FromStr for CgroupEvents`
unfoldable pub parse_cgroup_events : Str → Parsed CgroupEvents
unfolding keyed_fields required optional parse_boolean
parse_cgroup_events contents = do
  fields ← keyed_fields contents (λ _. codes "value")
  populated ← required parse_boolean fields (codes "populated")
  frozen ← optional parse_boolean fields (codes "frozen")
  ok (record { populated = populated; frozen = frozen })

pub record CgroupStatLocal : Type 0 where
  pub frozen_time : Time

-- `FromStr for CgroupStatLocal`
unfoldable pub parse_cgroup_stat_local : Str → Parsed CgroupStatLocal
unfolding keyed_fields required parse_microseconds
parse_cgroup_stat_local contents = do
  fields ← keyed_fields contents (λ _. codes "value")
  frozen ← required parse_microseconds fields (codes "frozen_usec")
  ok (record { frozen_time = frozen })

-- A `HashMap<CgroupController, Count>` is the list of its entries by controller name: its order is
-- not observed, and a controller is known by its name.
abbrev pub Subsystems : Type 0
Subsystems = BTreeMap Str (CgroupController × Count)

pub record CgroupStat : Type 0 where
  pub descendants : Count
  pub dying_descendants : Count
  pub subsystems : Subsystems
  pub dying_subsystems : Subsystems

module _ (raw prefix : Str) where
  abbrev subsystem : Str × Str → Parsed (Str × (CgroupController × Count))
  subsystem (name, text) =
      if is_empty name then err (invalid raw (codes "controller") name out_of_range) else (do
        count ← parse_field parse_count raw prefix text
        ok (controller_name (controller_from name), (controller_from name, count)))

  abbrev named : Str × Str → Option (Str × Str)
  named (key, text) = Option.map (λ (name : Str). (name, text)) (strip_prefix prefix key)

  -- `CgroupStat::parse_subsystems`
  unfoldable pub parse_subsystems : KeyedFields → Parsed Subsystems
  unfolding invalid parse_field parse_count controller_from strip_prefix from_iter
  parse_subsystems fields = do
    entries ← collect (map subsystem (filter_map named fields.values))
    ok (from_iter entries)

-- `FromStr for CgroupStat`
unfoldable pub parse_cgroup_stat : Str → Parsed CgroupStat
unfolding keyed_fields required parse_count parse_subsystems
parse_cgroup_stat contents = do
  fields ← keyed_fields contents (λ _. codes "value")
  descendants ← required parse_count fields (codes "nr_descendants")
  dying ← required parse_count fields (codes "nr_dying_descendants")
  subsystems ← parse_subsystems contents (codes "nr_subsys_") fields
  dying_subsystems ← parse_subsystems contents (codes "nr_dying_subsys_") fields
  ok (record {
    descendants = descendants;
    dying_descendants = dying;
    subsystems = subsystems;
    dying_subsystems = dying_subsystems;
  })
