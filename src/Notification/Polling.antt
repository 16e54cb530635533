-- ===== src/Notification/Polling.antt =====
-- The event poller, and the names of the files that can be watched.
use sakai.Base.{Result, ok, err, ℕ, ◌≡◌, refl, subst, ◌↔◌, Bool, true, false, some}
use sakai.Os.{IoError}
use sakai.Str.{Str}
use sakai.Strum.{name-from_name}
use sakai.Notification.{Outcome, EventPoller, acknowledge, poll_wait}
use sakai.Notification.Interfaces.{
  EventInterface, cgroup_events_event, event_filename, event_interfaces, parse_event_interface,
  ConfigurationInterface, cgroup_type_config, configuration_filename, configuration_interfaces,
  parse_configuration_interface,
}

-- A change is reported just when the descriptor was ready and both steps of the acknowledgement
-- succeeded, and no change just when it was not ready, whatever the acknowledgement would have done.
pub poll_wait_iff :
    (poller : EventPoller) (ready : Outcome Bool) (seek copy : Result IoError ℕ)
    → ((poll_wait poller ready seek copy ≡ ok true) ↔ (
        (ready ≡ ok true)
        × (start : ℕ) × (discarded : ℕ) × (seek ≡ ok start)
        × (copy ≡ ok discarded)))
      × ((poll_wait poller ready seek copy ≡ ok false) ↔ (ready ≡ ok false))
unfolding poll_wait acknowledge
poll_wait_iff poller (err e) seek copy = ((λ h. cc, λ h. cc (h.0)), (λ h. cc, λ h. cc))
poll_wait_iff poller (ok false) seek copy = ((λ h. cc, λ h. cc (h.0)), (λ h. refl, λ h. refl))
poll_wait_iff poller (ok true) (err e) copy = ((λ h. cc, λ h. cc (h.3)), (λ h. cc, λ h. cc))
poll_wait_iff poller (ok true) (ok start) (err e) = ((λ h. cc, λ h. cc (h.4)), (λ h. cc, λ h. cc))
poll_wait_iff poller (ok true) (ok start) (ok discarded) =
    ((λ h. (refl, start, discarded, refl, refl), λ h. refl), (λ h. cc, λ h. cc))

-- An event file is parsed back from its name, and so is a configuration file.
parse_event-filename : (i : EventInterface) → parse_event_interface (event_filename i) ≡ some i
unfolding parse_event_interface event_filename
parse_event-filename cgroup_events_event = refl
parse_event-filename _ = refl

parse_configuration-filename :
    (i : ConfigurationInterface) → parse_configuration_interface (configuration_filename i) ≡ some i
unfolding parse_configuration_interface configuration_filename
parse_configuration-filename cgroup_type_config = refl
parse_configuration-filename _ = refl

-- Each file that can be watched is parsed back from its name, in both families, and a name that is parsed
-- is that of the file.
pub parse_interface_iff :
    (text : Str)
    → ((i : EventInterface) → (parse_event_interface text ≡ some i) ↔ (event_filename i ≡ text))
      × ((i : ConfigurationInterface)
          → (parse_configuration_interface text ≡ some i) ↔ (configuration_filename i ≡ text))
parse_interface_iff text = (
  λ i. (
    λ h. name-from_name event_filename event_interfaces text (unfold parse_event_interface in h),
    λ h. subst (λ t. parse_event_interface t ≡ some i) h (parse_event-filename i),
  ),
  λ i. (
    λ h.
        name-from_name configuration_filename configuration_interfaces text
          (unfold parse_configuration_interface in h),
    λ h. subst (λ t. parse_configuration_interface t ≡ some i) h (parse_configuration-filename i),
  ),
)
