-- ===== src/Os.antt =====
-- `std::io::Error` and the crate's own `Error` of sakai/src/error.rs.
use sakai.Base.{◌==◌, if◌then◌else◌, ℕ, Bool, true, false, ◌||◌}
use sakai.Error.{ParseValueError, ParseError}
use sakai.Str.{Str, codes}
use sakai.Paths.{PathBuf}

-- An error number of Linux.
pub record Errno : Type 0 where
  pub raw : ℕ

abbrev pub enoent : Errno
enoent = record { raw = 2 }

abbrev pub ebadf : Errno
ebadf = record { raw = 9 }

abbrev pub eagain : Errno
eagain = record { raw = 11 }

abbrev pub eacces : Errno
eacces = record { raw = 13 }

abbrev pub epipe : Errno
epipe = record { raw = 32 }

abbrev pub enosys : Errno
enosys = record { raw = 38 }

abbrev pub eopnotsupp : Errno
eopnotsupp = record { raw = 95 }

abbrev pub errno_eq : Errno → Errno → Bool
errno_eq a b = a.raw == b.raw

-- `std::io::ErrorKind`: the kinds that the crate tells apart, and the rest.
pub data ErrorKind : Type 0 where
  not_found unsupported invalid_input broken_pipe other_kind : ErrorKind

pub data IoError : Type 0 where
  os : Errno → IoError
  custom : ErrorKind → IoError

-- The kind of an error number, as the standard library decodes it.
unfoldable pub decode_error_kind : Errno → ErrorKind
decode_error_kind e =
    if errno_eq e enoent
    then not_found
    else if errno_eq e enosys || errno_eq e eopnotsupp
    then unsupported
    else if e.raw == 22
    then invalid_input
    else if errno_eq e epipe
    then broken_pipe
    else other_kind

unfoldable pub kind : IoError → ErrorKind
unfolding decode_error_kind
kind (os e) = decode_error_kind e
kind (custom k) = k

abbrev pub is_not_found : ErrorKind → Bool
is_not_found not_found = true
is_not_found _ = false

abbrev pub is_invalid_input : ErrorKind → Bool
is_invalid_input invalid_input = true
is_invalid_input _ = false

-- `Error`.
pub data Failure : Type 0 where
  file_missing : PathBuf → Failure
  not_supported : PathBuf → IoError → Failure
  not_cgroup_v2 : Failure
  deleted_cgroup : PathBuf → Failure
  parse_failure : PathBuf → ParseError ParseValueError → Failure
  operation : Str → PathBuf → IoError → Failure
  io : IoError → Failure

abbrev of_kind : PathBuf → IoError → ErrorKind → Failure
of_kind path error not_found = file_missing path
of_kind path error unsupported = not_supported path error
of_kind path error _ = operation (codes "read interface") path error

-- `Error::read`
unfoldable pub read_error : PathBuf → IoError → Failure
unfolding kind
read_error path error = of_kind path error (kind error)
