-- ===== src/Notification/Batch.antt =====
-- What one batch of notifications tells.
use sakai.Base.{
  if◌then◌else◌, length, any, ok, err, ℕ, zero, suc, ◌<◌, ◌≡◌, ◌∙◌, Bool, true, false, ◌||◌, none,
  some, List, [], ◌∷◌, arith,
}
use sakai.Os.{eagain}
use sakai.Notification.{
  ReadFlags, ChangeNotification, no_change, include, Reader, read_batch, is_change,
  ConfigurationWatcher, watch,
}

-- The events of one batch: the reader returns them one after the other, until its buffer is used up or
-- nothing is left to read.
pub data Batch (r : Reader) : r.State → List ReadFlags → Type 0 where
  drained : {s : r.State} → (r.next s).0 ≡ err eagain → Batch r s []
  last_event :
      {s : r.State} (flags : ReadFlags)
      → (r.next s).0 ≡ ok flags
      → r.is_buffer_empty (r.next s).1 ≡ true
      → Batch r s (flags ∷ [])
  more_events :
      {s : r.State} (flags : ReadFlags) (rest : List ReadFlags)
      → (r.next s).0 ≡ ok flags
      → r.is_buffer_empty (r.next s).1 ≡ false
      → Batch r (r.next s).1 rest
      → Batch r s (flags ∷ rest)

abbrev include_all : ChangeNotification → List ReadFlags → ChangeNotification
include_all n [] = n
include_all n (flags ∷ rest) = include_all (include n flags) rest

abbrev pub is_removal : ReadFlags → Bool
is_removal flags = flags.delete_self || (flags.ignored || flags.unmount)

read_batch-Batch :
    (r : Reader) (s : r.State) (events : List ReadFlags) (fuel : ℕ) (n : ChangeNotification)
    → Batch r s events
    → length events < fuel
    → read_batch r fuel s n ≡ some (ok (include_all n events))
unfolding read_batch
read_batch-Batch r s events zero n b enough = absurd (omega arith)
read_batch-Batch r s _ (suc fuel) n (drained e) enough = rw (e, read_batch)
read_batch-Batch r s _ (suc fuel) n (last_event flags e full) enough = rw (e, full, read_batch)
read_batch-Batch r s _ (suc fuel) n (more_events flags rest e full b) enough =
    rw (e, full, read_batch)
      (read_batch-Batch r (r.next s).1 rest fuel (include n flags) b (omega arith))

-- The notification of a list of events: each flag is set by any event that carries it.
abbrev pub summary : List ReadFlags → ChangeNotification
summary events = record {
  modified = any (λ flags. flags.modify) events;
  removed = any is_removal events;
  overflowed = any (λ flags. flags.queue_overflow) events;
}

joined : ChangeNotification → List ReadFlags → ChangeNotification
joined n events = record {
  modified = n.modified || any (λ flags. flags.modify) events;
  removed = n.removed || any is_removal events;
  overflowed = n.overflowed || any (λ flags. flags.queue_overflow) events;
}

include_all-joined :
    (events : List ReadFlags) (n : ChangeNotification) → include_all n events ≡ joined n events
unfolding joined include
include_all-joined [] n = ground arith
include_all-joined (flags ∷ rest) n = include_all-joined rest (include n flags) ∙ ground arith

-- A ready watcher that is not terminal takes in the whole batch and reports it, whatever the order of
-- its events, and reports nothing if no event carries a flag that it knows; it is terminal afterwards
-- just when an event told of a removal. A fuel above the number of events is enough.
pub watch-Batch :
    (r : Reader) (s : r.State) (events : List ReadFlags) (fuel : ℕ) (w : ConfigurationWatcher)
    → w.removed ≡ false
    → Batch r s events
    → length events < fuel
    → watch r fuel s (ok true) w
      ≡ some (
        ok (if is_change (summary events) then some (summary events) else none),
        record { interface = w.interface; removed = any is_removal events },
      )
unfolding watch
watch-Batch r s events fuel w live b enough =
    rw (live, read_batch-Batch r s events fuel no_change b enough)
      (rw (include_all-joined events no_change) (unfold joined in ground arith))
