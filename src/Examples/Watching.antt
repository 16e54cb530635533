-- ===== src/Examples/Watching.antt =====
-- The subscriptions, with the outcomes of the system calls written out.
use sakai.Base.{
  if◌then◌else◌, is_empty, any, Result, ok, err, ℕ, ◌≡◌, refl, Bool, true, false, Option, none,
  some, List, [], ◌∷◌, arith,
}
use sakai.Os.{Errno, eagain, epipe, IoError, os, io}
use sakai.Notification.{
  ReadFlags, ChangeNotification, Outcome, Reader, is_change, ConfigurationWatcher, watch,
  EventPoller,
}
use sakai.Notification.Interfaces.{pids_events_event, cpu_max_config}
use sakai.Notification.Batch.{Batch, last_event, more_events, is_removal, summary, watch-Batch}
use sakai.Notification.Latch.{Waits, waits, idle, call, removals, Run-removals}

-- A reader whose state is what is left of its buffer.
abbrev next_event : List ReadFlags → Result Errno ReadFlags × List ReadFlags
next_event [] = (err eagain, [])
next_event (flags ∷ rest) = (ok flags, rest)

abbrev pub reader : Reader
reader = record { State = List ReadFlags; next = next_event; is_buffer_empty = is_empty }

abbrev a_write : ReadFlags
a_write = record {
  modify = true;
  delete_self = false;
  ignored = false;
  unmount = false;
  queue_overflow = false;
}

abbrev a_deletion : ReadFlags
a_deletion = record {
  modify = false;
  delete_self = true;
  ignored = false;
  unmount = false;
  queue_overflow = false;
}

abbrev pub two_events : List ReadFlags
two_events = a_write ∷ a_deletion ∷ []

abbrev watcher : ConfigurationWatcher
watcher = record { interface = cpu_max_config; removed = false }

abbrev pub gone : ConfigurationWatcher
gone = record { interface = cpu_max_config; removed = true }

two_events-Batch : Batch reader two_events two_events
two_events-Batch = more_events a_write (a_deletion ∷ []) refl refl (last_event a_deletion refl refl)

watch-Batch_example :
    watch reader 3 two_events (ok true) watcher
    ≡ some (
      ok (if is_change (summary two_events) then some (summary two_events) else none),
      record { interface = cpu_max_config; removed = any is_removal two_events },
    )
watch-Batch_example =
    watch-Batch reader two_events two_events 3 watcher refl two_events-Batch (omega arith)

abbrev told : Outcome (Option ChangeNotification)
told = ok (some (summary two_events))

abbrev broken : Outcome (Option ChangeNotification)
broken = err (io (os epipe))

removal_step : Waits watcher told gone
unfolding watch
removal_step = waits reader 3 two_events (ok true) refl

broken_step : Waits gone broken gone
unfolding watch
broken_step = waits reader 3 two_events (ok true) refl

Run-removals_example : removals (told ∷ broken ∷ []) ≡ (if gone.removed then 1 else 0)
Run-removals_example =
    Run-removals watcher gone (told ∷ broken ∷ []) refl (call removal_step (call broken_step idle))

abbrev a_poller : EventPoller
a_poller = record { path = []; interface = pids_events_event }

abbrev ready_now : Outcome Bool
ready_now = ok true

abbrev sought : Result IoError ℕ
sought = ok 0

abbrev copied : Result IoError ℕ
copied = ok 5
