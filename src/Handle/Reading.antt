-- ===== src/Handle/Reading.antt =====
-- Reading a file: the errors of the system as the crate reports them, and the parse behind it.
use sakai.Base.{if◌then◌else◌, Result, ok, err, ◌>>=◌, map_err, ◌≡◌, refl, ap, true, ◌||◌, arith}
use sakai.Paths.{PathBuf, components, join}
use sakai.Os.{
  Errno, enoent, enosys, eopnotsupp, errno_eq, IoError, os, Failure, file_missing, not_supported,
  parse_failure, operation, read_error,
}
use sakai.Error.{Parsed}
use sakai.Str.{Str, codes}
use sakai.Handle.{Kernel, single_normal, read_file, Cgroup, read, parse}

module _ (k : Kernel) (cgroup : Cgroup k) (file : Str) where
  -- The path in the errors.
  abbrev pub file_path : PathBuf
  file_path = join cgroup.path (components file)

  -- How an error number of opening a file is reported.
  abbrev pub reported : Errno → Failure
  reported e =
      if errno_eq e enoent
      then file_missing file_path
      else if errno_eq e enosys || errno_eq e eopnotsupp
      then not_supported file_path (os e)
      else operation (codes "read interface") file_path (os e)

  pub read_error-reported : (e : Errno) → read_error file_path (os e) ≡ reported e
  unfolding read_error
  read_error-reported e = ground arith

  module _ {T : Type 0} (from_str : Str → Parsed T) where
    -- What the file's text and its parse make of a read.
    abbrev pub of_text : Result IoError Str → Result Failure T
    of_text (ok text) = map_err (parse_failure file_path) (from_str text)
    of_text (err e) = err (read_error file_path e)

    abbrev pub of_open : Result Errno k.Fd → Result Failure T
    of_open (ok fd) = of_text (k.read_to_string fd)
    of_open (err e) = err (reported e)

    by_open :
        (o : Result Errno k.Fd)
        → (map_err
              (read_error file_path)
              (do descriptor ← map_err os o; k.read_to_string descriptor)
            >>= λ text. map_err (parse_failure file_path) (from_str text))
          ≡ of_open o
    by_open (err e) = ap err (read_error-reported e)
    by_open (ok fd) = by_text (k.read_to_string fd)
      where
        by_text :
            (t : Result IoError Str)
            → (map_err (read_error file_path) t >>= λ text.
                map_err (parse_failure file_path) (from_str text))
              ≡ of_text t
        by_text (ok text) = refl
        by_text (err e) = refl

    -- A snapshot is the parse of the file's text, with the file's path at its error. If the file cannot
    -- be opened, it is missing when there is none, the operation is not supported when the kernel says
    -- so by either of two numbers, and any other error number is handed on with the path.
    pub parse-of_open :
        single_normal (components file) ≡ true
        → parse k from_str cgroup file ≡ of_open (k.open_file cgroup.directory file)
    unfolding parse read read_file
    parse-of_open h = rw h (by_open (k.open_file cgroup.directory file))
