-- ===== src/Vmtest/Image.antt =====
-- The cache of kernel images, under a lock that one process holds: xtask/src/vmtest/kernel.rs.
pub mod Complete
use sakai.Base.{if◌then◌else◌, Result, ok, err, ◌>>=◌, ◌>>◌, map_err, ℕ, Bool, Option, none, some}
use sakai.Http.{RequestError, request, io_fault, Attempted}
use sakai.Notification.{Duration}
use sakai.Os.{IoError}
use sakai.Str.{Str}
use sakai.Vmtest.Download.{Clock, Reply, Partial, Progress, download}

-- The files of one kernel: the image, and the file that a download writes.
pub record Cache : Type 0 where
  pub destination : Option Str
  pub partial : Partial

-- What the calls of `Kernel::image` answer: the directory, the lock file and the lock, the look for
-- the image, the client, the rename, and whether a removal works.
pub record Environment : Type 0 where
  pub create_dir_all : Result IoError (Unit {0})
  pub create_lock : Result IoError (Unit {0})
  pub lock_exclusive : Result IoError (Unit {0})
  pub try_exists : Result IoError (Unit {0})
  pub client : Result RequestError (Unit {0})
  pub rename : Result IoError (Unit {0})
  pub removes : Bool

-- `fs::rename` of the download to the image.
abbrev pub renamed : Cache → Result IoError (Unit {0}) → Attempted (Unit {0}) × Cache
renamed cache (err e) = (err (io_fault e), cache)
renamed cache (ok done) = (ok tt, record { destination = cache.partial; partial = none })

-- `RETRY_DELAY`
abbrev pub download_retry_delay : Duration
download_retry_delay = record { secs = 10; nanos = 0 }

-- A failure removes what was downloaded, if that works.
unfoldable pub cleaned : Environment → Attempted (Unit {0}) × Cache → Attempted (Unit {0}) × Cache
cleaned env (ok done, cache) = (ok done, cache)
cleaned env (err e, cache) = (err e, if env.removes then record cache { partial = none } else cache)

module _ (url : Str) (clock : Clock) (replies : ℕ → Reply) (env : Environment) where
  abbrev pub of_download : Cache → Attempted (Unit {0}) × Progress → Attempted (Unit {0}) × Cache
  of_download cache (err e, progress) = (err e, record cache { partial = progress.partial })
  of_download cache (ok done, progress) =
      renamed (record cache { partial = progress.partial }) env.rename

  abbrev pub of_client : Cache → Result RequestError (Unit {0}) → Attempted (Unit {0}) × Cache
  of_client cache (err e) = (err (request e), cache)
  of_client cache (ok done) =
      of_download cache (download url download_retry_delay clock replies cache.partial)

  -- The block that fetches the image.
  unfoldable pub fetch : Cache → Attempted (Unit {0}) × Cache
  unfolding download
  fetch cache = of_client cache env.client

  abbrev pub prepared : Attempted (Unit {0})
  prepared = do
    map_err io_fault env.create_dir_all
    map_err io_fault env.create_lock
    map_err io_fault env.lock_exclusive
    map_err io_fault env.try_exists

  abbrev pub of_prepared : Cache → Attempted (Unit {0}) → Option Str → Attempted (Unit {0}) × Cache
  of_prepared cache (err e) destination = (err e, cache)
  of_prepared cache (ok done) (some text) = (ok tt, cache)
  of_prepared cache (ok done) none = cleaned env (fetch cache)

  -- `Kernel::image`
  unfoldable pub image : Cache → Attempted (Unit {0}) × Cache
  unfolding fetch cleaned
  image cache = of_prepared cache prepared cache.destination
