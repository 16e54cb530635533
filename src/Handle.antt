-- ===== src/Handle.antt =====
-- Opening and reading cgroups, sakai/src/cgroup/v2/handle.rs and file.rs. The kernel is an argument:
-- the calls that the code makes, each with its outcome.
pub mod Discovery
pub mod Fallback
pub mod Verified
pub mod Names
pub mod Subscriptions
pub mod Reading
pub mod Process
pub mod Beneath
use sakai.Base.{
  ◌==◌, if◌then◌else◌, any, all, filter_map, Result, ok, err, ◌>>=◌, ◌>>◌, map_err, collect,
  try_fold, ℕ, Bool, true, false, not, ◌&&◌, ◌||◌, Option, none, some, List, [], ◌∷◌,
}
use sakai.Paths.{Component, root_dir, cur_dir, normal, PathBuf, components, join}
use sakai.Os.{
  Errno, enosys, errno_eq, invalid_input, IoError, os, custom, kind, is_not_found, is_invalid_input,
  Failure, not_cgroup_v2, parse_failure, operation, io, read_error,
}
use sakai.Error.{Parsed}
use sakai.Str.{Str, codes, str_eq}

pub record Kernel : Type 1 where
  pub Fd : Type 0
  -- `open` of a directory by path
  pub open_base : PathBuf → Result Errno Fd
  -- `openat2` of a directory beneath another, without symbolic links
  pub openat2 : Fd → PathBuf → Result Errno Fd
  -- `openat` of one component of a directory path
  pub openat : Fd → Component → Result Errno Fd
  -- the type of the file system, by `fstatfs`
  pub f_type : Fd → Result Errno ℕ
  -- `openat` of a file to read, and all of its text
  pub open_file : Fd → Str → Result Errno Fd
  pub read_to_string : Fd → Result IoError Str
  -- the entries of a directory
  pub read_dir : Fd → Result Errno (List (Result Errno (Bool × Str)))

abbrev pub Fallible : Type 0 → Type 0
Fallible A = Result Failure A

abbrev invalid_name : Failure
invalid_name = io (custom invalid_input)

abbrev pub single_normal : PathBuf → Bool
single_normal (normal name ∷ []) = true
single_normal _ = false

abbrev pub may_descend : Component → Bool
may_descend (normal name) = true
may_descend cur_dir = true
may_descend _ = false

abbrev pub starts_normal : PathBuf → Bool
starts_normal (normal name ∷ rest) = true
starts_normal _ = false

-- `CGROUP2_SUPER_MAGIC`
abbrev pub cgroup2_super_magic : ℕ
cgroup2_super_magic = 0x63677270

module _ (k : Kernel) where
  -- `read_file`
  unfoldable pub read_file : k.Fd → Str → Result IoError Str
  unfolding components
  read_file cgroup interface =
      if single_normal (components interface)
      then (do descriptor ← map_err os (k.open_file cgroup interface); k.read_to_string descriptor)
      else err (custom invalid_input)

  pub record Cgroup : Type 0 where
    pub directory : k.Fd
    pub path : PathBuf

  -- `Cgroup::open_components`
  unfoldable pub open_components : k.Fd → PathBuf → Fallible k.Fd
  open_components base relative = do
    start ← map_err (λ e. io (os e)) (k.openat base cur_dir)
    try_fold (λ directory part. map_err (λ e. io (os e)) (k.openat directory part)) start relative

  abbrev pub or_dot : PathBuf → PathBuf
  or_dot [] = cur_dir ∷ []
  or_dot (c ∷ cs) = c ∷ cs

  abbrev pub or_components : k.Fd → PathBuf → Result Errno k.Fd → Fallible k.Fd
  or_components base relative (ok fd) = ok fd
  or_components base relative (err e) =
      if errno_eq e enosys then open_components base relative else err (io (os e))

  -- `Cgroup::open_directory`
  unfoldable pub open_directory : k.Fd → PathBuf → Fallible k.Fd
  unfolding open_components
  open_directory base relative =
      if all may_descend relative
      then or_components base (or_dot relative) (k.openat2 base (or_dot relative))
      else err invalid_name

  -- `Cgroup::verified`
  unfoldable pub verified : k.Fd → PathBuf → Fallible Cgroup
  verified directory path = do
    f_type ← map_err (λ e. io (os e)) (k.f_type directory)
    if f_type == cgroup2_super_magic
        then ok (record { directory = directory; path = path })
        else err not_cgroup_v2

  abbrev pub base_of : PathBuf → PathBuf × PathBuf
  base_of (root_dir ∷ relative) = (root_dir ∷ [], relative)
  base_of relative = (cur_dir ∷ [], relative)

  -- `Cgroup::open_path`
  unfoldable pub open_path : PathBuf → Fallible Cgroup
  unfolding open_directory verified
  open_path path = do
    base ← map_err (λ e. io (os e)) (k.open_base (base_of path).0)
    directory ← open_directory base (base_of path).1
    verified directory path

  abbrev pub explain : PathBuf → Failure → Failure
  explain path (io source) =
      if is_invalid_input (kind source)
      then io source
      else operation (codes "open cgroup") path source
  explain path other = other

  -- `Cgroup::from_path`
  unfoldable pub from_path : PathBuf → Fallible Cgroup
  unfolding open_path kind
  from_path path = map_err (explain path) (open_path path)

  abbrev pub explain_child : PathBuf → Failure → Failure
  explain_child path (io source) = operation (codes "open child cgroup") path source
  explain_child path other = other

  -- The guard of `Cgroup::child` on the name.
  unfoldable pub is_child_name : Str → Bool
  unfolding components
  is_child_name name = not (any (λ c. c == b'/') name) && starts_normal (components name)

  -- `Cgroup::child`
  unfoldable pub child : Cgroup → Str → Fallible Cgroup
  unfolding is_child_name components join open_directory verified
  child parent name =
      if is_child_name name
      then (do
        directory ←
            map_err (explain_child (join parent.path (components name)))
              (open_directory parent.directory (components name))
        verified directory (join parent.path (components name)))
      else err invalid_name

  abbrev pub kept : Fallible Cgroup → Option (Fallible Cgroup)
  kept (err (operation name path source)) =
      if is_not_found (kind source) then none else some (err (operation name path source))
  kept result = some result

  abbrev pub listed : Cgroup → Result Errno (Bool × Str) → Option (Fallible Cgroup)
  listed parent (err e) = some (err (operation (codes "list child cgroups") parent.path (os e)))
  listed parent (ok (is_directory, name)) =
      if is_directory && not (str_eq name (codes ".") || str_eq name (codes ".."))
      then kept (child parent name)
      else none

  -- `Cgroup::children`
  unfoldable pub children : Cgroup → Fallible (List Cgroup)
  unfolding child kind str_eq
  children parent = do
    entries ←
        map_err (λ e. operation (codes "list child cgroups") parent.path (os e))
          (k.read_dir parent.directory)
    collect (filter_map (listed parent) entries)

  -- `Cgroup::read`
  unfoldable pub read : Cgroup → Str → Fallible Str
  unfolding read_file read_error components join
  read cgroup file =
      map_err (read_error (join cgroup.path (components file))) (read_file cgroup.directory file)

  -- `Cgroup::parse`
  unfoldable pub parse {ℓ} : {T : Type ℓ} → (Str → Parsed T) → Cgroup → Str → Result Failure T
  unfolding read join components
  parse from_str cgroup file = do
    contents ← read cgroup file
    map_err (parse_failure (join cgroup.path (components file))) (from_str contents)
