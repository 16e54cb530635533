-- ===== src/Notification/Calls.antt =====
-- Opening a subscription of sakai/src/cgroup/v2/notification.rs, and its waits as they are called.
use sakai.Base.{Result, ok, ◌>>=◌, ◌>>◌, map_err, ℕ, Bool, false, Option, ◌++◌}
use sakai.Paths.{PathBuf}
use sakai.Num.{print}
use sakai.Str.{Str, codes}
use sakai.Os.{Errno, IoError, os, io, read_error}
use sakai.Notification.Interfaces.{EventInterface, ConfigurationInterface}
use sakai.Notification.{
  readable_interest, priority_interest, Duration, Polled, Outcome, readiness, Reader,
  ConfigurationWatcher, Waited, watch, EventPoller, acknowledge, poll_wait,
}

-- `EventPoller::wait` as it is called: readiness by priority, then the acknowledgement.
unfoldable pub event_wait :
    {T : Type 0}
    → (Duration → Option T)
    → (Option T → Polled)
    → Result IoError ℕ
    → Result IoError ℕ
    → EventPoller
    → Option Duration
    → Outcome Bool
unfolding readiness poll_wait
event_wait try_from poll seek copy poller timeout =
    poll_wait poller (readiness try_from poll priority_interest timeout) seek copy

-- `ConfigurationWatcher::wait` as it is called, with readiness to read.
unfoldable pub configuration_wait :
    {T : Type 0}
    → (Duration → Option T)
    → (Option T → Polled)
    → (r : Reader) → ℕ
    → r.State
    → ConfigurationWatcher
    → Option Duration
    → Option Waited
unfolding readiness watch
configuration_wait try_from poll r fuel s w timeout =
    watch r fuel s (readiness try_from poll readable_interest timeout) w

-- `EventPoller::open`, with the outcomes of opening the file and of the first acknowledgement.
unfoldable pub open_poller :
    PathBuf
    → EventInterface
    → Result Errno (Unit {0})
    → Result IoError ℕ
    → Result IoError ℕ
    → Outcome EventPoller
unfolding acknowledge read_error
open_poller path interface opened seek copy = do
  map_err (λ e. read_error path (os e)) opened
  acknowledge (record { path = path; interface = interface }) seek copy
  ok (record { path = path; interface = interface })

-- `ConfigurationWatcher::open`, with the number of the opened file's descriptor, and the calls of
-- inotify; the watch goes by the descriptor, never by the path.
unfoldable pub open_watcher :
    PathBuf
    → ConfigurationInterface
    → Result Errno ℕ
    → Result Errno (Unit {0})
    → (Str → Result Errno (Unit {0}))
    → Outcome ConfigurationWatcher
unfolding read_error print
open_watcher path interface opened init add_watch = do
  raw_fd ← map_err (λ e. read_error path (os e)) opened
  map_err (λ e. io (os e)) init
  map_err (λ e. io (os e)) (add_watch (codes "/proc/self/fd/" ++ print raw_fd))
  ok (record { interface = interface; removed = false })
