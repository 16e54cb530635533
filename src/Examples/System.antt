-- ===== src/Examples/System.antt =====
-- Opening and reading cgroups, with a small kernel.
use sakai.Base.{
  ltb, ◌==◌, if◌then◌else◌, Result, ok, err, ok-eq, ℕ, ◌+◌, ◌≡◌, refl, sym, ap, true, false, ◌&&◌,
  Option, none, some, List, [], ◌∷◌, ◌++◌,
}
use sakai.Handle.Discovery.{open_candidates, from_pid}
use sakai.Handle.Beneath.{without_openat2, follow, open_directory-follow}
use sakai.Decode.{parse_count}
use sakai.Parse.{single}
use sakai.Handle.Reading.{of_open, parse-of_open}
use sakai.Str.{Str, codes, str_eq}
use sakai.Paths.{Component, root_dir, cur_dir, parent_dir, normal, PathBuf, components}
use sakai.Os.{Errno, invalid_input, custom, not_cgroup_v2, io}
use sakai.Locate.{Membership, ProcError, other_error}
use sakai.Handle.{
  Kernel, Fallible, single_normal, cgroup2_super_magic, Cgroup, open_directory, from_path,
  is_child_name, children, parse,
}
use sakai.Handle.Fallback.{Returns, open_candidates-Returns}
use sakai.Handle.Verified.{OnCgroup2, from_path-OnCgroup2}
use sakai.Examples.Locating.{mounts, cgroup, deep}

-- A kernel in which every directory is a cgroup, with one child in each.
abbrev pub kernel : Kernel
kernel = record {
  Fd = ℕ;
  open_base = λ path. ok 0;
  openat2 = λ base path. ok (base + 1);
  openat = λ base part. ok (base + 1);
  f_type = λ fd. ok cgroup2_super_magic;
  open_file = λ fd name. ok fd;
  read_to_string = λ fd. ok (codes "1\n");
  read_dir = λ fd. ok (ok (true, codes "a") ∷ ok (false, codes "cpu.max") ∷ []);
}

abbrev pub opened : Cgroup kernel
opened = record { directory = 1; path = cgroup }

from_path-opened : from_path kernel cgroup ≡ ok opened
unfolding from_path
from_path-opened = refl

from_path-OnCgroup2_example : OnCgroup2 kernel opened × (opened.path ≡ cgroup)
from_path-OnCgroup2_example = from_path-OnCgroup2 kernel cgroup opened from_path-opened

abbrev escaping : PathBuf
escaping = root_dir ∷ parent_dir ∷ []

from_path_refused : from_path kernel escaping ≡ err (io (custom invalid_input))
unfolding from_path
from_path_refused = refl

abbrev first_child : Cgroup kernel
first_child = record { directory = 2; path = cgroup ++ normal (codes "a") ∷ [] }

children_listed : children kernel opened ≡ ok (first_child ∷ [])
unfolding children
children_listed = refl

abbrev opener : PathBuf → ℕ → Fallible ℕ × ℕ
opener path tries = (if tries == 1 then ok 7 else err not_cgroup_v2, tries + 1)

open_candidates-Returns_example :
    Returns opener
      (deep ∷ deep ∷ deep ∷ [])
      0
      (open_candidates opener (deep ∷ deep ∷ deep ∷ []) 0).0
      (open_candidates opener (deep ∷ deep ∷ deep ∷ []) 0).1
open_candidates-Returns_example = open_candidates-Returns opener (deep ∷ deep ∷ deep ∷ []) 0

child_accepted : is_child_name kernel (codes "a.b") ≡ true
unfolding is_child_name
child_accepted = refl

single_file : single_normal (components (codes "pids.current")) ≡ true
single_file = unfold components in refl

parse-of_open_example :
    parse kernel (λ text. single parse_count text (codes "current")) opened (codes "pids.current")
    ≡ of_open kernel opened
        (codes "pids.current")
        (λ text. single parse_count text (codes "current"))
        (kernel.open_file 1 (codes "pids.current"))
parse-of_open_example =
    parse-of_open kernel opened (codes "pids.current")
      (λ text. single parse_count text (codes "current")) single_file

abbrev memberships : List Membership
memberships =
    record { hierarchy = 1; controllers = codes "cpu" ∷ []; pathname = codes "/" }
    ∷ record { hierarchy = 0; controllers = []; pathname = codes "/a/b" }
    ∷ []

abbrev pub processes : ℕ → Result ProcError (Result ProcError (List Membership))
processes pid = if pid == 42 then ok (ok memberships) else err other_error

abbrev pub of_process_42 : Cgroup kernel
of_process_42 = record { directory = 1; path = deep.path }

pub from_pid_42 : from_pid kernel processes (ok (ok mounts)) 42 ≡ ok of_process_42
unfolding from_pid
from_pid_42 = refl

-- A kernel whose directories are numbers: each but the last has one entry, `a`, the next directory.
abbrev entry_a : ℕ → Str → Option ℕ
entry_a d name = if str_eq name (codes "a") && ltb d 5 then some (d + 1) else none

abbrev opened_entry : Option ℕ → Result Errno ℕ
opened_entry none = err (record { raw = 20 })
opened_entry (some d) = ok d

abbrev openat_a : ℕ → Component → Result Errno ℕ
openat_a d (normal name) = opened_entry (entry_a d name)
openat_a d cur_dir = ok d
openat_a d part = ok 0

abbrev nested : Kernel
nested = record kernel { openat = openat_a }

nested-reopens : (d e : ℕ) → openat_a d cur_dir ≡ ok e → e ≡ d
nested-reopens d e h = sym (ok-eq h)

nested-enters : (d e : ℕ) (name : Str) → openat_a d (normal name) ≡ ok e → entry_a d name ≡ some e
nested-enters d e name h = from_opened (entry_a d name) h
  where
    from_opened : (o : Option ℕ) {e : ℕ} → opened_entry o ≡ ok e → o ≡ some e
    from_opened none h = cc
    from_opened (some d) h = ap some (ok-eq h)

abbrev inner_a : PathBuf
inner_a = normal (codes "a") ∷ cur_dir ∷ normal (codes "a") ∷ []

opened_inner : open_directory (without_openat2 nested) 0 inner_a ≡ ok 2
unfolding open_directory str_eq
opened_inner = refl

open_directory-follow_example : follow entry_a 0 inner_a ≡ some 2
open_directory-follow_example =
    open_directory-follow entry_a nested (λ d. d) nested-reopens nested-enters 0 inner_a 2
      opened_inner
