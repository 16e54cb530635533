-- ===== src/Examples/Bindings.antt =====
-- The bindings over a kernel whose files cannot be opened, and in an interpreter that works.
use sakai.Python.Readers.Core.Words.{words_of, python_core_controllers-words}
use sakai.Python.Readers.Core.{python_core_controllers, python_core_subtree_control}
use sakai.Examples.Files.{numbers}
use sakai.Examples.Locating.{mounts}
use sakai.Num.{pos, i32_max}
use sakai.Handle.Verified.{OnCgroup2}
use sakai.Notification.Interfaces.{
  EventInterface, event_filename, ConfigurationInterface, configuration_filename,
}
use sakai.Python.Handle.Opened.{python_from_pid-OnCgroup2, python_poll_events-raised}
use sakai.Python.Handle.{
  process_number, python_from_pid, python_poll_events, python_watch_configuration,
}
use sakai.Base.{
  Result, ok, err, ℕ, ◌≤◌, ◌<◌, ◌≡◌, refl, ◌≢◌, ◌⊎◌, true, false, Option, some, [], ◌∷◌,
}
use sakai.Python.Hugetlb.Labels.{read_label, python_current-label}
use sakai.Parse.{single}
use sakai.Python.Hugetlb.{python_current}
use sakai.Hugetlb.PageSize.RoundTrip.{IsPageSize}
use sakai.Python.Reading.{raised, python_result-parse}
use sakai.Python.Waiting.Guards.{python_configuration_wait-removed}
use sakai.Decode.{parse_count}
use sakai.Str.{Str, codes, split_ascii_whitespace}
use sakai.Hugetlb.PageSize.{PageSize, show_size}
use sakai.Python.Waiting.{parse_timeout, free, python_configuration_wait}
use sakai.Paths.{root_dir, normal, components}
use sakai.Os.{Errno, epipe, eopnotsupp}
use sakai.Python.Errors.{
  os_error, value_error, runtime_error, PyErr, new_err, Interpreter, python_result, with_attribute,
  Works,
}
use sakai.Handle.{Kernel, single_normal, Cgroup, read, parse}
use sakai.Examples.System.{kernel, opened, processes, of_process_42}
use sakai.Examples.Watching.{reader, two_events, gone}
use sakai.Notification.{Duration, Polled}

abbrev py : Interpreter
py = record {
  try_from_int = value_error;
  setattr = λ e a. ok (with_attribute e a);
  new_os_error = λ number path. ok (record (new_err os_error) { errno = number; filename = path });
}

py-Works : Works py
py-Works = (λ e a. refl, λ number path. refl)

-- No file can be opened, since the kernel does not support it.
abbrev silent : Kernel
silent = record kernel { open_file = λ fd name. err eopnotsupp }

abbrev cgroup : Cgroup silent
cgroup = record { directory = 1; path = root_dir ∷ normal (codes "a") ∷ [] }

single_file : single_normal (components (codes "pids.current")) ≡ true
single_file = unfold components in refl

python_result-parse_example :
    python_result py (
      parse silent
        (λ text. single parse_count text (codes "current"))
        cgroup
        (codes "pids.current"))
    ≡ err (raised py py-Works silent cgroup (codes "pids.current") eopnotsupp)
python_result-parse_example =
    python_result-parse py py-Works silent cgroup (codes "pids.current")
      (λ text. single parse_count text (codes "current")) eopnotsupp single_file refl

-- Timeouts in whole seconds.
abbrev seconds : ℕ → Option Duration
seconds n = some (record { secs = n; nanos = 0 })

abbrev five : Option Duration
five = some (record { secs = 5; nanos = 0 })

five_accepted : parse_timeout seconds (some 5) ≡ ok five
unfolding parse_timeout
five_accepted = refl

abbrev poll : Option Duration → Polled
poll timeout = ok (
  0,
  record { readable = false; priority = false; error = false; hang_up = false; invalid = false },
)

python_configuration_wait-removed_example :
    (e : PyErr) × (python_configuration_wait seconds py free
        (some 5)
        some
        poll
        reader
        3
        two_events
        gone
      ≡ some (err e, gone))
    × ((e ≡ new_err value_error)
        ⊎ ((e ≡ new_err runtime_error)
            ⊎ (e ≡ record (new_err os_error) { errno = some epipe.raw })))
python_configuration_wait-removed_example =
    python_configuration_wait-removed seconds py free (some 5) some poll reader 3 two_events gone
      py-Works refl

python_current-label_example :
    ((size : PageSize)
      → show_size size ≡ codes "2MB"
      → IsPageSize size
      → python_current py kernel opened (codes "2MB") ≡ read_label py kernel opened (codes "2MB"))
    × (((size : PageSize) → show_size size ≡ codes "2MB" → IsPageSize size → ⊥)
        → python_current py kernel opened (codes "2MB") ≡ err (new_err value_error))
python_current-label_example = python_current-label py kernel opened (codes "2MB")

from_python_42 : python_from_pid py kernel processes (ok (ok mounts)) (pos 42) ≡ ok of_process_42
unfolding python_from_pid python_result process_number
from_python_42 = refl

python_from_pid-OnCgroup2_example :
    (n : ℕ) × (pos 42 ≡ pos n) × (0 < n) × (n ≤ i32_max) × OnCgroup2 kernel of_process_42
python_from_pid-OnCgroup2_example =
    python_from_pid-OnCgroup2 py kernel processes (ok (ok mounts)) (pos 42) of_process_42
      from_python_42

abbrev number_of_descriptor : ℕ → ℕ
number_of_descriptor fd = fd

abbrev added : Str → Result Errno (Unit {0})
added path = ok tt

python_poll_events-raised_example :
    (((i : EventInterface) → event_filename i ≢ codes "cpuset.cpus.partition")
      → python_poll_events py silent cgroup (ok 0) (ok 0) (codes "cpuset.cpus.partition")
        ≡ err (new_err value_error))
    × (((i : ConfigurationInterface) → configuration_filename i ≢ codes "cpuset.cpus.partition")
        → python_watch_configuration py silent cgroup number_of_descriptor
            (ok tt)
            added
            (codes "cpuset.cpus.partition")
          ≡ err (new_err value_error))
    × ((e : Errno)
        → silent.open_file cgroup.directory (codes "cpuset.cpus.partition") ≡ err e
        → ((i : EventInterface)
            → event_filename i ≡ codes "cpuset.cpus.partition"
            → python_poll_events py silent cgroup (ok 0) (ok 0) (codes "cpuset.cpus.partition")
              ≡ err (raised py py-Works silent cgroup (codes "cpuset.cpus.partition") e))
          × ((i : ConfigurationInterface)
              → configuration_filename i ≡ codes "cpuset.cpus.partition"
              → python_watch_configuration py silent cgroup number_of_descriptor
                  (ok tt)
                  added
                  (codes "cpuset.cpus.partition")
                ≡ err (raised py py-Works silent cgroup (codes "cpuset.cpus.partition") e)))
python_poll_events-raised_example =
    python_poll_events-raised py silent py-Works cgroup (ok 0) (ok 0) number_of_descriptor (ok tt)
      added (codes "cpuset.cpus.partition")

-- The files of a kernel that lists a controller of a later version.
abbrev listing : Kernel
listing = record kernel { read_to_string = λ fd. ok (codes "cpu io later\n") }

abbrev listed : Cgroup listing
listed = record { directory = 1; path = root_dir ∷ normal (codes "a") ∷ [] }

listed_words :
    words_of py listing numbers listed (codes "cgroup.controllers")
    ≡ ok (codes "cpu" ∷ codes "io" ∷ codes "later" ∷ [])
unfolding read python_result split_ascii_whitespace
listed_words = refl

python_core_controllers-words_example :
    (python_core_controllers py listing numbers listed
      ≡ words_of py listing numbers listed (codes "cgroup.controllers"))
    × (python_core_subtree_control py listing numbers listed
        ≡ words_of py listing numbers listed (codes "cgroup.subtree_control"))
python_core_controllers-words_example = python_core_controllers-words py listing numbers listed
