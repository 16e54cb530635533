-- ===== src/Python/Errors.antt =====
-- The exceptions that stand for the errors of the crate: sakai-python/src/linux/errors.rs.
use sakai.Base.{Result, ok, err, ◌>>=◌, map_err, ℕ, ◌≡◌, Option, none, some}
use sakai.Os.{
  IoError, os, custom, kind, Failure, file_missing, not_supported, not_cgroup_v2, deleted_cgroup,
  parse_failure, operation, io,
}
use sakai.Paths.{PathBuf}
use sakai.Str.{Str}

-- The classes: those of the module, `OSError` with the subclass that the number chooses, and the
-- builtin ones that the bindings raise.
pub data ExceptionClass : Type 0 where
  interface_missing not_cgroup_v2_error deleted_cgroup_error cgroup_parse_error : ExceptionClass
  not_supported_error os_error value_error runtime_error : ExceptionClass

-- An exception with its attributes, as far as they are set. Its message is left out.
pub record PyErr : Type 0 where
  pub class : ExceptionClass
  pub path : Option PathBuf
  pub errno : Option ℕ
  pub filename : Option PathBuf
  pub operation_name : Option Str

abbrev pub PyResult : Type 0 → Type 0
PyResult A = Result PyErr A

-- `PyErr::new` of a class.
abbrev pub new_err : ExceptionClass → PyErr
new_err class = record {
  class = class;
  path = none;
  errno = none;
  filename = none;
  operation_name = none;
}

pub data Attribute : Type 0 where
  path_attribute filename_attribute : PathBuf → Attribute
  errno_attribute : Option ℕ → Attribute
  operation_attribute : Str → Attribute

-- What the interpreter does: setting an attribute, and calling `OSError` with a number, a text and a
-- file name, each of which may raise in turn; and the class of the failed conversion of an integer.
pub record Interpreter : Type 0 where
  pub try_from_int : ExceptionClass
  pub setattr : PyErr → Attribute → PyResult PyErr
  pub new_os_error : Option ℕ → Option PathBuf → PyResult PyErr

-- `io::Error::raw_os_error`
abbrev pub raw_os_error : IoError → Option ℕ
raw_os_error (os e) = some e.raw
raw_os_error (custom kind) = none

-- The exception, or the one that making it raised.
abbrev pub either_err : PyResult PyErr → PyErr
either_err (ok e) = e
either_err (err e) = e

module _ (py : Interpreter) where
  -- `PythonError::with_path`
  unfoldable pub with_path : ExceptionClass → PathBuf → PyErr
  with_path class path = either_err (py.setattr (new_err class) (path_attribute path))

  -- `PythonError::os_error`
  unfoldable pub os_error_of : IoError → Option PathBuf → PyErr
  os_error_of source path = either_err (py.new_os_error (raw_os_error source) path)

  -- `PythonError::from_core`
  unfoldable pub from_core : Failure → PyErr
  unfolding with_path os_error_of
  from_core (file_missing path) = with_path interface_missing path
  from_core (not_supported path source) = either_err (do
    e ← py.setattr (with_path not_supported_error path) (errno_attribute (raw_os_error source))
    py.setattr e (filename_attribute path))
  from_core not_cgroup_v2 = new_err not_cgroup_v2_error
  from_core (deleted_cgroup path) = with_path deleted_cgroup_error path
  from_core (parse_failure path source) = with_path cgroup_parse_error path
  from_core (io source) = os_error_of source none
  from_core (operation name path source) = either_err (do
    e ← py.setattr (os_error_of source (some path)) (path_attribute path)
    py.setattr e (operation_attribute name))

  -- `PythonError::result`, and so `PythonError::read`, on the result of the crate.
  unfoldable pub python_result : {T : Type 0} → Result Failure T → PyResult T
  unfolding from_core
  python_result r = map_err from_core r

-- The interpreter sets attributes, and `OSError` takes its number and its file name.
abbrev pub with_attribute : PyErr → Attribute → PyErr
with_attribute e (path_attribute path) = record e { path = some path }
with_attribute e (filename_attribute path) = record e { filename = some path }
with_attribute e (errno_attribute number) = record e { errno = number }
with_attribute e (operation_attribute name) = record e { operation_name = some name }

abbrev pub Works : Interpreter → Type 0
Works py =
    ((e : PyErr) (a : Attribute) → py.setattr e a ≡ ok (with_attribute e a))
    × ((number : Option ℕ) (path : Option PathBuf)
        → py.new_os_error number path
          ≡ ok (record (new_err os_error) { errno = number; filename = path }))
