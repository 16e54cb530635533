-- ===== src/Python/Handle/Opened.antt =====
-- What Python is given when it opens a cgroup or a subscription: sakai-python/src/linux/handle.rs.
use sakai.Notification.Calls.{open_poller, open_watcher}
use sakai.Handle.Verified.{OnCgroup2}
use sakai.Python.Handle.{
  process_number, python_from_pid, python_poll_events, python_watch_configuration,
}
use sakai.Python.Reading.{from_core-exception_of, raised, raised-reported}
use sakai.Python.Errors.{value_error, new_err, Interpreter, from_core, python_result, Works}
use sakai.Handle.Reading.{reported, read_error-reported}
use sakai.Handle.Process.{from_pid-OnCgroup2}
use sakai.Handle.Discovery.{from_pid}
use sakai.Handle.Subscriptions.{poll_events, watch_configuration}
use sakai.Notification.Polling.{parse_interface_iff}
use sakai.Notification.Interfaces.{
  EventInterface, event_filename, parse_event_interface, ConfigurationInterface,
  configuration_filename, parse_configuration_interface,
}
use sakai.Locate.{Membership, Mount, ProcError}
use sakai.Num.{ℤ, pos, negsuc, i32_max}
use sakai.Str.{Str}
use sakai.Os.{Errno, IoError}
use sakai.Base.{
  Option-cases, Result, ok, err, >>=-Passes, map_err-ok, ℕ, ◌≤◌, ◌<◌, ◌≡◌, refl, ap, ◌∙◌, subst,
  ◌≢◌, inl, inr, List, arith,
}
use sakai.Handle.{Kernel, Cgroup}

number_of : (py : Interpreter) (pid : ℤ) {n : ℕ} → process_number py pid ≡ ok n → pid ≡ pos n
unfolding process_number
number_of py (pos m) h = ground arith
number_of py (negsuc m) h = cc

module _ (py : Interpreter) (k : Kernel) where
  -- A cgroup that Python opens by a process identifier, of whatever sign and size, is a directory of a
  -- cgroup2 file system, and the identifier is positive and has 31 bits.
  pub python_from_pid-OnCgroup2 :
      (process : ℕ → Result ProcError (Result ProcError (List Membership)))
      (myself : Result ProcError (Result ProcError (List Mount))) (pid : ℤ) (cgroup : Cgroup k)
      → python_from_pid py k process myself pid ≡ ok cgroup
      → (n : ℕ) × (pid ≡ pos n) × (0 < n) × (n ≤ i32_max) × OnCgroup2 k cgroup
  unfolding python_from_pid python_result
  python_from_pid-OnCgroup2 process myself pid cgroup h =
      let (n, e, h1) = >>=-Passes (process_number py pid) _ h in
      let (positive, fits, here) =
        from_pid-OnCgroup2 k process myself n cgroup
          (map_err-ok (from_core py) (from_pid k process myself n) h1) in
      (n, number_of py pid e, positive, fits, here)

  module _ (works : Works py) (cgroup : Cgroup k) where
    poll_events-raised :
        (seek copy : Result IoError ℕ) (i : EventInterface) (e : Errno)
        → k.open_file cgroup.directory (event_filename i) ≡ err e
        → python_result py (poll_events k cgroup seek copy i)
          ≡ err (raised py works k cgroup (event_filename i) e)
    unfolding poll_events open_poller python_result
    poll_events-raised seek copy i e failed = rw failed (
        rw (read_error-reported k cgroup (event_filename i) e) (
          ap err (
            from_core-exception_of py works (reported k cgroup (event_filename i) e)
            ∙ raised-reported py works k cgroup (event_filename i) e)))

    watch_configuration-raised :
        (as_raw_fd : k.Fd → ℕ) (init : Result Errno (Unit {0}))
        (add_watch : Str → Result Errno (Unit {0})) (i : ConfigurationInterface) (e : Errno)
        → k.open_file cgroup.directory (configuration_filename i) ≡ err e
        → python_result py (watch_configuration k cgroup as_raw_fd init add_watch i)
          ≡ err (raised py works k cgroup (configuration_filename i) e)
    unfolding watch_configuration open_watcher python_result
    watch_configuration-raised as_raw_fd init add_watch i e failed = rw failed (
        rw (read_error-reported k cgroup (configuration_filename i) e) (
          ap err (
            from_core-exception_of py works (reported k cgroup (configuration_filename i) e)
            ∙ raised-reported py works k cgroup (configuration_filename i) e)))

    -- Subscribing from Python to a name that is not among the files of the family raises `ValueError`,
    -- whatever the kernel holds. Subscribing to a file of the family that cannot be opened raises as
    -- reading that file does, in both families.
    pub python_poll_events-raised :
        (seek copy : Result IoError ℕ) (as_raw_fd : k.Fd → ℕ) (init : Result Errno (Unit {0}))
        (add_watch : Str → Result Errno (Unit {0})) (text : Str)
        → (((i : EventInterface) → event_filename i ≢ text)
            → python_poll_events py k cgroup seek copy text ≡ err (new_err value_error))
          × (((i : ConfigurationInterface) → configuration_filename i ≢ text)
              → python_watch_configuration py k cgroup as_raw_fd init add_watch text
                ≡ err (new_err value_error))
          × ((e : Errno)
              → k.open_file cgroup.directory text ≡ err e
              → ((i : EventInterface)
                  → event_filename i ≡ text
                  → python_poll_events py k cgroup seek copy text
                    ≡ err (raised py works k cgroup text e))
                × ((i : ConfigurationInterface)
                    → configuration_filename i ≡ text
                    → python_watch_configuration py k cgroup as_raw_fd init add_watch text
                      ≡ err (raised py works k cgroup text e)))
    unfolding python_poll_events python_watch_configuration
    python_poll_events-raised seek copy as_raw_fd init add_watch text =
        let (events, configurations) = parse_interface_iff text in
        (
          λ unknown. elim (Option-cases (parse_event_interface text)) [
            | inl absent ↦ rw absent refl
            | inr (i, e) ↦ absurd (unknown i ((events i).0 e))
          ],
          λ unknown. elim (Option-cases (parse_configuration_interface text)) [
            | inl absent ↦ rw absent refl
            | inr (i, e) ↦ absurd (unknown i ((configurations i).0 e))
          ],
          λ e failed. (
            λ i named. rw ((events i).1 named) (
                subst
                  (λ t.
                    python_result py (poll_events k cgroup seek copy i)
                    ≡ err (raised py works k cgroup t e))
                  named
                  (poll_events-raised seek copy i e
                    (ap (k.open_file cgroup.directory) named ∙ failed))),
            λ i named. rw ((configurations i).1 named) (
                subst
                  (λ t.
                    python_result py (watch_configuration k cgroup as_raw_fd init add_watch i)
                    ≡ err (raised py works k cgroup t e))
                  named
                  (watch_configuration-raised as_raw_fd init add_watch i e
                    (ap (k.open_file cgroup.directory) named ∙ failed))),
          ),
        )
