-- ===== src/Python/Reading.antt =====
-- Reading an interface from Python: sakai-python/src/linux/errors.rs over sakai/src/cgroup/v2/handle.rs.
use sakai.Base.{if◌then◌else◌, err, ℕ, ◌≡◌, refl, ap, ◌∙◌, true, ◌||◌, Option, none, some, arith}
use sakai.Error.{Parsed}
use sakai.Str.{Str, codes}
use sakai.Handle.Reading.{file_path, reported, parse-of_open}
use sakai.Handle.{Kernel, single_normal, Cgroup, parse}
use sakai.Os.{
  Errno, enoent, enosys, eopnotsupp, errno_eq, IoError, Failure, file_missing, not_supported,
  not_cgroup_v2, deleted_cgroup, parse_failure, operation, io,
}
use sakai.Paths.{PathBuf, components}
use sakai.Python.Errors.{
  ExceptionClass, interface_missing, not_cgroup_v2_error, deleted_cgroup_error, cgroup_parse_error,
  not_supported_error, os_error, PyErr, new_err, path_attribute, filename_attribute,
  errno_attribute, operation_attribute, Interpreter, raw_os_error, with_path, os_error_of,
  from_core, python_result, Works,
}

-- What a failure is raised as.
abbrev pub class_of : Failure → ExceptionClass
class_of (file_missing path) = interface_missing
class_of (not_supported path source) = not_supported_error
class_of not_cgroup_v2 = not_cgroup_v2_error
class_of (deleted_cgroup path) = deleted_cgroup_error
class_of (parse_failure path source) = cgroup_parse_error
class_of (operation name path source) = os_error
class_of (io source) = os_error

-- The path that a failure tells of.
abbrev pub path_of : Failure → Option PathBuf
path_of (file_missing path) = some path
path_of (not_supported path source) = some path
path_of not_cgroup_v2 = none
path_of (deleted_cgroup path) = some path
path_of (parse_failure path source) = some path
path_of (operation name path source) = some path
path_of (io source) = none

-- The error number that a failure keeps.
abbrev pub errno_of : Failure → Option ℕ
errno_of (not_supported path source) = raw_os_error source
errno_of (operation name path source) = raw_os_error source
errno_of (io source) = raw_os_error source
errno_of _ = none

module _ (py : Interpreter) (works : Works py) where
  with_path-eq :
      (class : ExceptionClass) (path : PathBuf)
      → with_path py class path ≡ record (new_err class) { path = some path }
  unfolding with_path
  with_path-eq class path = rw (works.0 (new_err class) (path_attribute path)) refl

  os_error_of-eq :
      (source : IoError) (path : Option PathBuf)
      → os_error_of py source path
        ≡ record (new_err os_error) { errno = raw_os_error source; filename = path }
  unfolding os_error_of
  os_error_of-eq source path = rw (works.1 (raw_os_error source) path) refl

  -- The exception of a failure, attribute by attribute.
  abbrev pub exception_of : Failure → PyErr
  exception_of (file_missing path) = record (new_err interface_missing) { path = some path }
  exception_of (not_supported path source) = record (new_err not_supported_error) {
    path = some path;
    errno = raw_os_error source;
    filename = some path;
  }
  exception_of not_cgroup_v2 = new_err not_cgroup_v2_error
  exception_of (deleted_cgroup path) = record (new_err deleted_cgroup_error) { path = some path }
  exception_of (parse_failure path source) = record (new_err cgroup_parse_error) {
    path = some path;
  }
  exception_of (io source) = record (new_err os_error) { errno = raw_os_error source }
  exception_of (operation name path source) = record (new_err os_error) {
    path = some path;
    errno = raw_os_error source;
    filename = some path;
    operation_name = some name;
  }

  pub from_core-exception_of : (failure : Failure) → from_core py failure ≡ exception_of failure
  unfolding from_core
  from_core-exception_of (file_missing path) = with_path-eq interface_missing path
  from_core-exception_of (not_supported path source) =
      rw
        (
          with_path-eq not_supported_error path,
          works.0 (record (new_err not_supported_error) { path = some path })
              (errno_attribute (raw_os_error source)),
          works.0
              (record (new_err not_supported_error) {
                path = some path;
                errno = raw_os_error source;
              })
              (filename_attribute path),
        )
        refl
  from_core-exception_of not_cgroup_v2 = refl
  from_core-exception_of (deleted_cgroup path) = with_path-eq deleted_cgroup_error path
  from_core-exception_of (parse_failure path source) = with_path-eq cgroup_parse_error path
  from_core-exception_of (io source) = os_error_of-eq source none
  from_core-exception_of (operation name path source) =
      rw
        (
          os_error_of-eq source (some path),
          works.0 (record (new_err os_error) { errno = raw_os_error source; filename = some path })
              (path_attribute path),
          works.0
              (record (new_err os_error) {
                path = some path;
                errno = raw_os_error source;
                filename = some path;
              })
              (operation_attribute name),
        )
        refl

  -- Every error of the crate is raised as one class, with the path and the error number that it has,
  -- if the interpreter sets attributes.
  pub from_core-class :
      (failure : Failure)
      → ((from_core py failure).class ≡ class_of failure)
        × ((from_core py failure).path ≡ path_of failure)
        × ((from_core py failure).errno ≡ errno_of failure)
  from_core-class failure = rw (from_core-exception_of failure) (parts failure)
    where
      parts :
          (failure : Failure)
          → ((exception_of failure).class ≡ class_of failure)
            × ((exception_of failure).path ≡ path_of failure)
            × ((exception_of failure).errno ≡ errno_of failure)
      parts (file_missing path) = (refl, refl, refl)
      parts (not_supported path source) = (refl, refl, refl)
      parts not_cgroup_v2 = (refl, refl, refl)
      parts (deleted_cgroup path) = (refl, refl, refl)
      parts (parse_failure path source) = (refl, refl, refl)
      parts (io source) = (refl, refl, refl)
      parts (operation name path source) = (refl, refl, refl)

  module _ (k : Kernel) (cgroup : Cgroup k) (file : Str) where
    -- The exception for an error number of opening the file.
    abbrev pub raised : Errno → PyErr
    raised e =
        if errno_eq e enoent
        then record (new_err interface_missing) { path = some (file_path k cgroup file) }
        else if errno_eq e enosys || errno_eq e eopnotsupp
        then record (new_err not_supported_error) {
          path = some (file_path k cgroup file);
          errno = some e.raw;
          filename = some (file_path k cgroup file);
        }
        else record (new_err os_error) {
          path = some (file_path k cgroup file);
          errno = some e.raw;
          filename = some (file_path k cgroup file);
          operation_name = some (codes "read interface");
        }

    pub raised-reported : (e : Errno) → exception_of (reported k cgroup file e) ≡ raised e
    raised-reported e = ground arith

    -- Reading a file that cannot be opened raises, with the path of the file: that the interface is
    -- missing if there is no file; that it is not supported, with the number, if the kernel says so;
    -- and otherwise `OSError` with the number and the path.
    pub python_result-parse :
        {T : Type 0} (from_str : Str → Parsed T) (e : Errno)
        → single_normal (components file) ≡ true
        → k.open_file cgroup.directory file ≡ err e
        → python_result py (parse k from_str cgroup file) ≡ err (raised e)
    unfolding python_result
    python_result-parse from_str e name failed =
        rw (parse-of_open k cgroup file from_str name, failed)
          (ap err (from_core-exception_of (reported k cgroup file e) ∙ raised-reported e))
