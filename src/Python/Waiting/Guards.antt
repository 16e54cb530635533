-- ===== src/Python/Waiting/Guards.antt =====
-- What the guards of a wait from Python make sure of: sakai-python/src/linux/notification.rs.
use sakai.Base.{
  Option-cases, ok, err, ◌>>=◌, map_ok, map_err, ok_or, ℕ, zero, suc, ◌≤◌, ◌≡◌, refl, ◌≢◌, ◌⊎◌, inl,
  inr, Bool, true, Option, none, some, arith,
}
use sakai.Python.Reading.{from_core-exception_of}
use sakai.Notification.Calls.{configuration_wait}
use sakai.Notification.{
  Interest, Duration, Polled, Outcome, ready_flags, readiness, Reader, ConfigurationWatcher, watch,
}
use sakai.Os.{epipe, invalid_input, os, custom, io}
use sakai.Python.Errors.{
  os_error, value_error, runtime_error, PyErr, PyResult, new_err, Interpreter, from_core,
  python_result, Works,
}
use sakai.Python.Waiting.{
  i64_max, representable, parse_timeout, Lock, free, try_lock, PythonWaited, of_guards,
  python_configuration_wait,
}

configuration_wait-removed :
    {T : Type 0} (try_from : Duration → Option T) (poll : Option T → Polled) (r : Reader) (fuel : ℕ)
    (s : r.State) (w : ConfigurationWatcher) (duration : Option Duration)
    → w.removed ≡ true
    → configuration_wait try_from poll r fuel s w duration ≡ some (err (io (os epipe)), w)
unfolding configuration_wait
configuration_wait-removed try_from poll r fuel s w duration gone = unfold watch in rw gone refl

module _ {F64 : Type 0} (try_from_secs_f64 : F64 → Option Duration) where
  parse_timeout-le :
      (timeout : Option F64) (d : Duration)
      → parse_timeout try_from_secs_f64 timeout ≡ ok (some d)
      → d.secs ≤ i64_max
  unfolding parse_timeout
  parse_timeout-le none d h = cc
  parse_timeout-le (some seconds) d h = bounded (try_from_secs_f64 seconds) h
    where
      bounded :
          (o : Option Duration)
          → Path
              (PyResult (Option Duration))
              (map_ok some (ok_or (representable try_from_secs_f64 o) (new_err value_error)))
              (ok (some d))
          → d.secs ≤ i64_max
      bounded none h = cc
      bounded (some d') h = ground arith

  parse_timeout-err :
      (timeout : Option F64) (e : PyErr)
      → parse_timeout try_from_secs_f64 timeout ≡ err e
      → e ≡ new_err value_error
  unfolding parse_timeout
  parse_timeout-err none e h = cc
  parse_timeout-err (some seconds) e h =
      refused (representable try_from_secs_f64 (try_from_secs_f64 seconds)) h
    where
      refused :
          (o : Option Duration)
          → Path (PyResult (Option Duration)) (map_ok some (ok_or o (new_err value_error))) (err e)
          → e ≡ new_err value_error
      refused none h = cc
      refused (some d) h = cc

  polled-ne-invalid :
      (interest : Interest) (polled : Polled)
      → Path
          (Outcome Bool)
          (map_err (λ e. io (os e)) polled >>= ready_flags interest)
          (err (io (custom invalid_input)))
      → ⊥
  polled-ne-invalid interest (err e) h = cc
  polled-ne-invalid interest (ok (zero, flags)) h = cc
  polled-ne-invalid interest (ok (suc ready, flags)) h = ground arith

  -- A timeout that is accepted can be represented in the call of the system, if every duration of at
  -- most 2 ^ 63 - 1 seconds can: the wait never fails as one with an invalid timeout.
  pub parse_timeout-readiness :
      {T : Type 0} (try_from : Duration → Option T) (poll : Option T → Polled) (interest : Interest)
      (timeout : Option F64) (duration : Option Duration)
      → ((d : Duration) → d.secs ≤ i64_max → try_from d ≢ none)
      → parse_timeout try_from_secs_f64 timeout ≡ ok duration
      → readiness try_from poll interest duration ≢ err (io (custom invalid_input))
  unfolding readiness
  parse_timeout-readiness try_from poll interest timeout none total accepted failed =
      polled-ne-invalid interest (poll none) failed
  parse_timeout-readiness try_from poll interest timeout (some d) total accepted failed =
      elim (Option-cases (try_from d)) [
        | inl absent ↦ total d (parse_timeout-le timeout d accepted) absent
        | inr (t, e) ↦ polled-ne-invalid interest (poll (some t)) (rw e at failed)
      ]

  -- Every wait on a watcher that a removal ended raises, whatever the timeout and the lock: that the
  -- timeout is no valid one, that another wait is running, or the broken pipe; and it stays ended.
  pub python_configuration_wait-removed :
      (py : Interpreter) (lock : Lock) (timeout : Option F64) {T : Type 0}
      (try_from : Duration → Option T) (poll : Option T → Polled) (r : Reader) (fuel : ℕ)
      (s : r.State) (w : ConfigurationWatcher)
      → Works py
      → w.removed ≡ true
      → (e : PyErr) × (python_configuration_wait try_from_secs_f64 py lock timeout try_from poll r
            fuel s w
          ≡ some (err e, w))
        × ((e ≡ new_err value_error)
            ⊎ ((e ≡ new_err runtime_error)
                ⊎ (e ≡ record (new_err os_error) { errno = some epipe.raw })))
  unfolding python_configuration_wait python_result
  python_configuration_wait-removed py lock timeout try_from poll r fuel s w works gone =
      by_timeout (parse_timeout try_from_secs_f64 timeout) (λ e h. parse_timeout-err timeout e h)
    where
      Raises : Option (PythonWaited try_from_secs_f64 py lock timeout try_from poll) → Type 0
      Raises waited =
          (e : PyErr) × (waited ≡ some (err e, w))
          × ((e ≡ new_err value_error)
              ⊎ ((e ≡ new_err runtime_error)
                  ⊎ (e ≡ record (new_err os_error) { errno = some epipe.raw })))

      by_lock :
          (l : Lock) (duration : Option Duration)
          → Raises (
              of_guards try_from_secs_f64 py lock timeout try_from poll r fuel s w
                (do locked ← try_lock l; ok duration))
      by_lock free duration =
          rw (configuration_wait-removed try_from poll r fuel s w duration gone) (
            from_core py (io (os epipe)),
            refl,
            inr (inr (from_core-exception_of py works (io (os epipe)))),
          )
      by_lock _ duration = (new_err runtime_error, refl, inr (inl refl))

      by_timeout :
          (p : PyResult (Option Duration))
          → ((e : PyErr) → p ≡ err e → e ≡ new_err value_error)
          → Raises (
              of_guards try_from_secs_f64 py lock timeout try_from poll r fuel s w
                (do duration ← p; locked ← try_lock lock; ok duration))
      by_timeout (err e) h = (e, refl, inl (h e refl))
      by_timeout (ok duration) h = by_lock lock duration
