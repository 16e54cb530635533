-- ===== src/Vmtest/Run.antt =====
-- Running the selected kernels in turn: xtask/src/vmtest/mod.rs. A kernel's cache, and what the calls
-- of its test answer, are looked up by its name.
pub mod Sound
pub mod Started
use sakai.Release.Package.{ensure}
use sakai.Vmtest.Selection.{Kernel, Profile, selected}
use sakai.Vmtest.Build.{Tools, record_binary, build_binary}
use sakai.Paths.{PathBuf}
use sakai.Vmtest.Image.{Cache, Environment, image}
use sakai.Vmtest.Download.{Clock, Reply}
use sakai.Http.{Fault, io_fault, message, context, Attempted}
use sakai.Str.{Str, codes, str_eq}
use sakai.Os.{IoError}
use sakai.Base.{
  if◌then◌else◌, Result, ok, err, ◌>>=◌, ◌>>◌, map_ok, map_err, ℕ, zero, suc, ◌&&◌, Option, none,
  some, List, [], ◌∷◌, ◌++◌, map,
}

-- What the calls of one kernel's test answer: those of `Kernel::image`, the write of the
-- configuration, and the exit code of the guest, none if a signal ended it.
pub record Machine : Type 0 where
  pub url : Str
  pub clock : Clock
  pub replies : ℕ → Reply
  pub environment : Environment
  pub write_config : Result IoError (Unit {0})
  pub status : Result IoError (Option ℕ)

-- The host of a run: the outcomes of finding the repository, of the run in a container, and of the
-- calls that put the binary where the guest finds it.
pub record Host : Type 0 where
  pub os : Str
  pub arch : Str
  pub repository : Attempted PathBuf
  pub container : Attempted (Unit {0})
  pub create_cache : Result IoError (Unit {0})
  pub canonicalize : Str → Result IoError Str
  pub guest_binary : Str
  pub tools : Tools

-- How a run ends early: by an error, or by `std::process::exit`.
pub data Stop : Type 0 where
  fault : Fault → Stop
  exit : ℕ → Stop

-- `status.code()` of the guest.
unfoldable pub of_code : Option ℕ → Result Stop (Unit {0})
of_code none = err (fault (message (codes "vmtest terminated by signal")))
of_code (some zero) = ok tt
of_code (some (suc code)) = err (exit (suc code))

-- What ran: the name of a kernel, and its image.
abbrev pub Ran : Type 0
Ran = List (Str × Option Str)

abbrev pub Caches : Type 0
Caches = Str → Cache

abbrev pub with_cache : Caches → Str → Cache → Caches
with_cache caches name cache = λ n. if str_eq n name then cache else caches n

abbrev pub Tested : Type 0
Tested = Result Stop (Unit {0}) × Caches × Ran

abbrev pub of_config :
    Str
    → Option Str
    → Result IoError (Unit {0})
    → Result IoError (Option ℕ)
    → Result Stop (Unit {0}) × Ran
of_config name image (err e) status = (err (fault (io_fault e)), [])
of_config name image (ok done) (err e) = (
  err (fault (context (codes "failed to start vmtest (enter devenv shell first)") (io_fault e))),
  [],
)
of_config name image (ok done) (ok code) = (of_code code, (name, image) ∷ [])

-- `Vmtest::run_kernel`, with what it runs: nothing if the guest cannot be started.
unfoldable pub run_kernel : Machine → Str → Option Str → Result Stop (Unit {0}) × Ran
unfolding of_code
run_kernel m name image = of_config name image m.write_config m.status

module _ (machines : Str → Machine) where
  abbrev pub of_image : Caches → Str → Attempted (Unit {0}) × Cache → Tested
  of_image caches name (err e, cache) = (err (fault e), with_cache caches name cache, [])
  of_image caches name (ok done, cache) =
      let (result, ran) = run_kernel (machines name) name cache.destination in
      (result, with_cache caches name cache, ran)

  abbrev pub fetched : Str → Cache → Attempted (Unit {0}) × Cache
  fetched name cache =
      image (machines name).url (machines name).clock (machines name).replies
        (machines name).environment cache

  -- The body of the loop.
  unfoldable pub test_kernel : Str → Caches → Tested
  unfolding image run_kernel str_eq
  test_kernel name caches = of_image caches name (fetched name (caches name))

  abbrev pub and_next : (Caches → Tested) → Tested → Tested
  and_next next (err stop, caches, ran) = (err stop, caches, ran)
  and_next next (ok done, caches, ran) =
      let (result, caches', more) = next caches in (result, caches', ran ++ more)

  -- The loop over the selected kernels.
  unfoldable pub test_kernels : List Str → Caches → Tested
  unfolding test_kernel
  test_kernels [] caches = (ok tt, caches, [])
  test_kernels (name ∷ names) caches = and_next (test_kernels names) (test_kernel name caches)

  module _ (host : Host) (profile : Profile) (names : List Str) where
    abbrev pub binary_of : Option Str → Attempted Str
    binary_of none = build_binary host.tools
    binary_of (some path) =
        map_err (λ e. context (codes "test binary not found") (io_fault e)) (host.canonicalize path)

    -- `if binary != guest_binary`
    abbrev pub placed : Str → Attempted (Unit {0})
    placed binary = if str_eq binary host.guest_binary then ok tt else (do
      map_err io_fault host.tools.create_parent
      map_err io_fault (host.tools.copy binary))

    abbrev pub recorded : Option Str → Attempted (Unit {0})
    recorded none = ok tt
    recorded (some path) = map_ok (λ metadata. tt) (record_binary host.tools)

    -- The steps of `Vmtest::run` before its loop: the kernels that are to run.
    unfoldable pub ready_kernels : Option Str → Attempted (List Kernel)
    unfolding str_eq selected build_binary record_binary
    ready_kernels test_binary = do
      ensure (str_eq host.os (codes "linux") && str_eq host.arch (codes "x86_64"))
          (codes "vmtest requires an x86-64 Linux host")
      chosen ← selected profile names
      map_err io_fault host.create_cache
      binary ← binary_of test_binary
      placed binary
      recorded test_binary
      ok chosen

    abbrev pub of_ready : Caches → Attempted (List Kernel) → Tested
    of_ready caches (err e) = (err (fault e), caches, [])
    of_ready caches (ok chosen) = test_kernels (map (λ kernel. kernel.name) chosen) caches

    abbrev pub of_repository : Option Str → Caches → Attempted PathBuf → Tested
    of_repository test_binary caches (err e) = (err (fault e), caches, [])
    of_repository test_binary caches (ok path) =
        if str_eq host.os (codes "macos")
        then (map_err fault host.container, caches, [])
        else of_ready caches (ready_kernels test_binary)

    -- `Vmtest::run`
    unfoldable pub run : Option Str → Caches → Tested
    unfolding test_kernels ready_kernels str_eq
    run test_binary caches = of_repository test_binary caches host.repository
