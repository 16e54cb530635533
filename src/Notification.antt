-- ===== src/Notification.antt =====
-- The subscriptions of sakai/src/cgroup/v2/notification.rs. A call of the system is an argument, its
-- outcome: that of `poll` on the one descriptor, and the reader of inotify events.
pub mod Interfaces
pub mod Batch
pub mod Latch
pub mod Polling
pub mod Calls
use sakai.Base.{
  if◌then◌else◌, Result, ok, err, ◌>>=◌, ◌>>◌, map_ok, map_err, ok_or, ℕ, zero, suc, Bool, true,
  false, ◌||◌, Option, none, some, map,
}
use sakai.Os.{
  Errno, ebadf, eagain, epipe, errno_eq, invalid_input, IoError, os, custom, Failure, io,
  read_error,
}
use sakai.Paths.{PathBuf}
use sakai.Notification.Interfaces.{EventInterface, ConfigurationInterface}
use mathlib.Core.Option

-- `inotify::ReadFlags`: the flags that the watcher looks at.
pub record ReadFlags : Type 0 where
  pub modify : Bool
  pub delete_self : Bool
  pub ignored : Bool
  pub unmount : Bool
  pub queue_overflow : Bool

pub record ChangeNotification : Type 0 where
  pub modified : Bool
  pub removed : Bool
  pub overflowed : Bool

-- `ChangeNotification::default()`
abbrev pub no_change : ChangeNotification
no_change = record { modified = false; removed = false; overflowed = false }

-- `ChangeNotification::include`
unfoldable pub include : ChangeNotification → ReadFlags → ChangeNotification
include n flags = record {
  modified = n.modified || flags.modify;
  removed = n.removed || (flags.delete_self || (flags.ignored || flags.unmount));
  overflowed = n.overflowed || flags.queue_overflow;
}

-- `poll::PollFlags`: the flags that the code looks at.
pub record PollFlags : Type 0 where
  pub readable : Bool
  pub priority : Bool
  pub error : Bool
  pub hang_up : Bool
  pub invalid : Bool

pub data Interest : Type 0 where
  readable_interest priority_interest : Interest

abbrev interested : Interest → PollFlags → Bool
interested readable_interest flags = flags.readable
interested priority_interest flags = flags.priority

-- `Duration`, and the timeout that `Timespec::try_from` makes of it.
pub record Duration : Type 0 where
  pub secs : ℕ
  pub nanos : ℕ

-- The outcome of `poll`: how many descriptors are ready, and the flags of the one.
abbrev pub Polled : Type 0
Polled = Result Errno (ℕ × PollFlags)

abbrev pub Outcome : Type 0 → Type 0
Outcome A = Result (Failure) A

abbrev pub ready_flags : Interest → ℕ × PollFlags → Outcome Bool
ready_flags interest (zero, flags) = ok false
ready_flags interest (suc ready, flags) =
    if flags.invalid
    then err (io (os ebadf))
    else if flags.hang_up
    then err (io (os epipe))
    else ok (interested interest flags || flags.error)

-- `timeout.map(Timespec::try_from).transpose()`: the conversion is an argument.
abbrev timespec_of : {T : Type 0} → (Duration → Option T) → Option Duration → Outcome (Option T)
timespec_of try_from none = ok none
timespec_of try_from (some timeout) =
    map_ok some (ok_or (try_from timeout) (io (custom invalid_input)))

-- `Readiness::wait`, with `poll` as a function of the timeout that it is called with.
unfoldable pub readiness :
    {T : Type 0}
    → (Duration → Option T)
    → (Option T → Polled)
    → Interest
    → Option Duration
    → Outcome Bool
readiness try_from poll interest timeout = do
  timespec ← timespec_of try_from timeout
  polled ← map_err (λ e. io (os e)) (poll timespec)
  ready_flags interest polled

-- The reader of inotify events: the next event or an error, and whether its buffer is used up.
pub record Reader : Type 1 where
  pub State : Type 0
  pub next : State → Result Errno ReadFlags × State
  pub is_buffer_empty : State → Bool

-- The loop of `ConfigurationWatcher::wait` over one buffer, as long as there is fuel.
unfoldable pub read_batch :
    (r : Reader) → ℕ → r.State → ChangeNotification → Option (Result Errno ChangeNotification)
unfolding include
read_batch r zero s n = none
read_batch r (suc fuel) s n = elim (r.next s).0 [
  | err e ↦ if errno_eq e eagain then some (ok n) else some (err e)
  | ok flags ↦ elim (r.is_buffer_empty (r.next s).1) [
    | true ↦ some (ok (include n flags))
    | false ↦ read_batch r fuel (r.next s).1 (include n flags)
  ]
]

-- `notification != ChangeNotification::default()`
abbrev pub is_change : ChangeNotification → Bool
is_change n = n.modified || (n.removed || n.overflowed)

abbrev then_some : Bool → ChangeNotification → Option ChangeNotification
then_some true n = some n
then_some false n = none

-- `ConfigurationWatcher`, without its descriptor.
pub record ConfigurationWatcher : Type 0 where
  pub interface : ConfigurationInterface
  pub removed : Bool

abbrev pub Waited : Type 0
Waited = Outcome (Option ChangeNotification) × ConfigurationWatcher

abbrev pub of_batch : ConfigurationWatcher → Result Errno ChangeNotification → Waited
of_batch w (err e) = (err (io (os e)), w)
of_batch w (ok n) =
    (ok (then_some (is_change n) n), record { interface = w.interface; removed = n.removed })

abbrev pub of_ready :
    (r : Reader) → ℕ → r.State → ConfigurationWatcher → Outcome Bool → Option Waited
of_ready r fuel s w (err e) = some (err e, w)
of_ready r fuel s w (ok false) = some (ok none, w)
of_ready r fuel s w (ok true) = Option.map (of_batch w) (read_batch r fuel s no_change)

-- `ConfigurationWatcher::wait`, with the outcome of the wait for readiness; none if there was no
-- fuel left for the loop.
unfoldable pub watch :
    (r : Reader) → ℕ → r.State → Outcome Bool → ConfigurationWatcher → Option Waited
unfolding read_batch
watch r fuel s ready w =
    if w.removed then some (err (io (os epipe)), w) else of_ready r fuel s w ready

-- `EventPoller`, without its descriptor.
pub record EventPoller : Type 0 where
  pub path : PathBuf
  pub interface : EventInterface

module _ (poller : EventPoller) where
  -- `EventPoller::acknowledge`, with the outcomes of `seek` and of `io::copy`.
  unfoldable pub acknowledge : Result IoError ℕ → Result IoError ℕ → Outcome (Unit {0})
  unfolding read_error
  acknowledge seek copy = do
    start ← map_err (read_error poller.path) seek
    discarded ← map_err (read_error poller.path) copy
    ok tt

  -- `EventPoller::wait`
  unfoldable pub poll_wait : Outcome Bool → Result IoError ℕ → Result IoError ℕ → Outcome Bool
  unfolding acknowledge
  poll_wait ready seek copy = do
    is_ready ← ready
    if is_ready then (do acknowledge seek copy; ok true) else ok false
