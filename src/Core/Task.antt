-- ===== src/Core/Task.antt =====
-- Process and thread identifiers, sakai/src/cgroup/v2/core/task.rs.
pub mod RoundTrip
use sakai.Base.{◌>>=◌, ◌>>◌, map_err, ok_or, collect, Option, none, some, List, map}
use sakai.Num.{ℤ, pos, negsuc, i32_max}
use sakai.Decode.{signed}
use sakai.Error.{out_of_range, invalid, Parsed}
use sakai.Str.{Str, codes, is_whitespace, trim, filled_lines}

pub record TaskId : Type 0 where
  pub id : ℤ

-- `TaskId::try_new`
unfoldable pub try_new_task : ℤ → Option TaskId
try_new_task (pos n) = some (record { id = pos n })
try_new_task (negsuc n) = none

module _ (contents : Str) where
  unfoldable pub parse_task : Str → Parsed TaskId
  unfolding trim is_whitespace signed try_new_task invalid
  parse_task line = do
    id ← map_err (invalid contents (codes "task_id") (trim line)) (signed i32_max (trim line))
    ok_or (try_new_task id) (invalid contents (codes "task_id") (trim line) out_of_range)

  -- `TaskId::parse_list`
  unfoldable pub parse_tasks : Parsed (List TaskId)
  unfolding filled_lines parse_task
  parse_tasks = collect (map parse_task (filled_lines contents))
