-- ===== src/Pids.antt =====
-- The events of the pids controller, sakai/src/cgroup/v2/pids.rs. Its other files are scalars.
pub mod Readers
use sakai.Base.{ok, ◌>>=◌, ◌>>◌}
use sakai.Decode.{parse_count}
use sakai.Error.{Parsed}
use sakai.Str.{Str, codes}
use sakai.Unit.{Count}
use sakai.Parse.{keyed_fields, required}

pub record PidsEvents : Type 0 where
  pub max : Count

-- `FromStr for PidsEvents`
unfoldable pub parse_pids_events : Str → Parsed PidsEvents
unfolding keyed_fields required parse_count
parse_pids_events contents = do
  fields ← keyed_fields contents (λ _. codes "value")
  count ← required parse_count fields (codes "max")
  ok (record { max = count })
