-- ===== src/Python/Waiting.antt =====
-- Waits in Python: sakai-python/src/linux/notification.rs. A monitor is behind a mutex that is tried
-- and never waited for.
pub mod Guards
use sakai.Base.{
  leb, if◌then◌else◌, Result, ok, err, ◌>>=◌, ◌>>◌, map_ok, ok_or, ℕ, ◌-◌, ◌^◌, Bool, Option, none,
  some, map,
}
use sakai.Notification.{
  ChangeNotification, Duration, Polled, Reader, ConfigurationWatcher, Waited, EventPoller,
}
use sakai.Notification.Calls.{event_wait, configuration_wait}
use sakai.Os.{IoError}
use sakai.Python.Errors.{value_error, runtime_error, PyResult, new_err, Interpreter, python_result}
use mathlib.Core.Option

-- `i64::MAX`
abbrev pub i64_max : ℕ
i64_max = 2 ^ 63 - 1

module _ {F64 : Type 0} (try_from_secs_f64 : F64 → Option Duration) where
  abbrev pub representable : Option Duration → Option Duration
  representable none = none
  representable (some d) = if leb d.secs i64_max then some d else none

  -- `WaitTimeout::parse`
  unfoldable pub parse_timeout : Option F64 → PyResult (Option Duration)
  parse_timeout none = ok none
  parse_timeout (some seconds) =
      map_ok some (ok_or (representable (try_from_secs_f64 seconds)) (new_err value_error))

-- `Mutex::try_lock`
pub data Lock : Type 0 where
  free held poisoned : Lock

abbrev pub try_lock : Lock → PyResult (Unit {0})
try_lock free = ok tt
try_lock _ = err (new_err runtime_error)

module _ {F64 : Type 0} (try_from_secs_f64 : F64 → Option Duration) (py : Interpreter) (lock : Lock)
    (timeout : Option F64) {T : Type 0} (try_from : Duration → Option T)
    (poll : Option T → Polled) where
  -- `EventPoller::wait` of the bindings.
  unfoldable pub python_event_wait :
      Result IoError ℕ → Result IoError ℕ → EventPoller → PyResult Bool
  unfolding parse_timeout event_wait python_result
  python_event_wait seek copy poller = do
    duration ← parse_timeout try_from_secs_f64 timeout
    locked ← try_lock lock
    python_result py (event_wait try_from poll seek copy poller duration)

  abbrev pub PythonWaited : Type 0
  PythonWaited = PyResult (Option ChangeNotification) × ConfigurationWatcher

  abbrev translated : Waited → PythonWaited
  translated (outcome, w) = (python_result py outcome, w)

  abbrev pub of_guards :
      (r : Reader)
      → ℕ
      → r.State
      → ConfigurationWatcher
      → PyResult (Option Duration)
      → Option PythonWaited
  of_guards r fuel s w (err e) = some (err e, w)
  of_guards r fuel s w (ok duration) =
      Option.map translated (configuration_wait try_from poll r fuel s w duration)

  -- `ConfigurationWatcher::wait` of the bindings; none if there was no fuel left for the loop.
  unfoldable pub python_configuration_wait :
      (r : Reader) → ℕ → r.State → ConfigurationWatcher → Option PythonWaited
  unfolding parse_timeout configuration_wait python_result
  python_configuration_wait r fuel s w =
      of_guards r fuel s w
        (do duration ← parse_timeout try_from_secs_f64 timeout; locked ← try_lock lock; ok duration)
