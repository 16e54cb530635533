-- ===== src/Python/Handle.antt =====
-- Handles in Python: sakai-python/src/linux/handle.rs.
pub mod Opened
use sakai.Handle.Discovery.{from_pid, from_current_process}
use sakai.Handle.Subscriptions.{poll_events, watch_configuration}
use sakai.Notification.Interfaces.{parse_event_interface, parse_configuration_interface}
use sakai.Notification.{ConfigurationWatcher, EventPoller}
use sakai.Num.{ℤ, pos, negsuc, u32_max}
use sakai.Str.{Str}
use sakai.Base.{leb, if◌then◌else◌, Result, ok, err, ◌>>=◌, ◌>>◌, ok_or, ℕ, List}
use sakai.Paths.{PathBuf}
use sakai.Os.{Errno, IoError}
use sakai.Handle.{Kernel, Cgroup, from_path, child, children}
use sakai.Locate.{Membership, Mount, ProcError}
use sakai.Python.Errors.{value_error, PyResult, new_err, Interpreter, python_result}

module _ (py : Interpreter) where
  -- `u32::try_from` of an `i64`, whose failure raises what the bindings' library makes of it.
  unfoldable pub process_number : ℤ → PyResult ℕ
  process_number (pos n) = if leb n u32_max then ok n else err (new_err py.try_from_int)
  process_number (negsuc n) = err (new_err py.try_from_int)

module _ (py : Interpreter) (k : Kernel) where
  module _ (process : ℕ → Result ProcError (Result ProcError (List Membership)))
      (myself : Result ProcError (Result ProcError (List Mount))) where
    -- `Cgroup::current`
    unfoldable pub python_current_process : ℕ → PyResult (Cgroup k)
    unfolding python_result from_current_process
    python_current_process id = python_result py (from_current_process k process myself id)

    -- `Cgroup::from_pid`
    unfoldable pub python_from_pid : ℤ → PyResult (Cgroup k)
    unfolding python_result process_number from_pid
    python_from_pid pid = do
      n ← process_number py pid
      python_result py (from_pid k process myself n)

  -- `Cgroup::from_path`
  unfoldable pub python_from_path : PathBuf → PyResult (Cgroup k)
  unfolding python_result from_path
  python_from_path path = python_result py (from_path k path)

  -- `Cgroup::child`
  unfoldable pub python_child : Cgroup k → Str → PyResult (Cgroup k)
  unfolding python_result child
  python_child cgroup name = python_result py (child k cgroup name)

  -- `Cgroup::children`
  unfoldable pub python_children : Cgroup k → PyResult (List (Cgroup k))
  unfolding python_result children
  python_children cgroup = python_result py (children k cgroup)

  module _ (cgroup : Cgroup k) where
    -- `Cgroup::poll_events`
    unfoldable pub python_poll_events :
        Result IoError ℕ → Result IoError ℕ → Str → PyResult EventPoller
    unfolding python_result parse_event_interface poll_events
    python_poll_events seek copy interface = do
      known ← ok_or (parse_event_interface interface) (new_err value_error)
      python_result py (poll_events k cgroup seek copy known)

    -- `Cgroup::watch_configuration`
    unfoldable pub python_watch_configuration :
        (k.Fd → ℕ)
        → Result Errno (Unit {0})
        → (Str → Result Errno (Unit {0}))
        → Str
        → PyResult ConfigurationWatcher
    unfolding python_result parse_configuration_interface watch_configuration
    python_watch_configuration as_raw_fd init add_watch interface = do
      known ← ok_or (parse_configuration_interface interface) (new_err value_error)
      python_result py (watch_configuration k cgroup as_raw_fd init add_watch known)
