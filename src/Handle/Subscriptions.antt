-- ===== src/Handle/Subscriptions.antt =====
-- Opening a subscription on a cgroup: sakai/src/cgroup/v2/handle.rs. The calls behind the opened file
-- are arguments, as in Notification/Calls.
use sakai.Notification.Interfaces.{
  EventInterface, event_filename, ConfigurationInterface, configuration_filename,
}
use sakai.Notification.Calls.{open_poller, open_watcher}
use sakai.Notification.{ConfigurationWatcher, EventPoller}
use sakai.Pressure.{IrqPressure, parse_irq_pressure}
use sakai.Unit.{Float}
use sakai.Str.{Str, codes}
use sakai.Base.{Result, map_ok, ℕ}
use sakai.Paths.{components, join}
use sakai.Os.{Errno, IoError}
use sakai.Handle.{Kernel, Fallible, Cgroup, parse}

module _ (k : Kernel) (cgroup : Cgroup k) where
  -- `Cgroup::irq_pressure`
  unfoldable pub irq_pressure : (f : Float) → Fallible (IrqPressure f)
  unfolding parse parse_irq_pressure
  irq_pressure f = parse k (parse_irq_pressure f) cgroup (codes "irq.pressure")

  -- `Cgroup::poll_events`
  unfoldable pub poll_events :
      Result IoError ℕ → Result IoError ℕ → EventInterface → Fallible EventPoller
  unfolding open_poller event_filename join components
  poll_events seek copy interface =
      open_poller (join cgroup.path (components (event_filename interface))) interface
        (map_ok (λ descriptor. tt) (k.open_file cgroup.directory (event_filename interface))) seek
        copy

  -- `Cgroup::watch_configuration`, with the number of a descriptor and the calls of inotify.
  unfoldable pub watch_configuration :
      (k.Fd → ℕ)
      → Result Errno (Unit {0})
      → (Str → Result Errno (Unit {0}))
      → ConfigurationInterface
      → Fallible ConfigurationWatcher
  unfolding open_watcher configuration_filename join components
  watch_configuration as_raw_fd init add_watch interface =
      open_watcher (join cgroup.path (components (configuration_filename interface))) interface
        (map_ok as_raw_fd (k.open_file cgroup.directory (configuration_filename interface))) init
        add_watch
