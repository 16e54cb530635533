-- ===== src/Vmtest/Download.antt =====
-- Downloading a kernel, xtask/src/vmtest/kernel.rs. The outcomes of the requests and of the writes
-- are an argument, by the number of the attempt.
pub mod Whole
use sakai.Attempts.{Flow, return, continue, for_attempts}
use sakai.Base.{
  ltb, leb, ◌==◌, if◌then◌else◌, all, Result, ok, err, and_then, ℕ, ◌+◌, ◌*◌, ◌/◌, ◌%◌, Bool, ◌&&◌,
  Option, none, some, List, [], ◌∷◌, ◌++◌,
}
use sakai.Http.{
  StatusCode, too_many_requests, RequestError, Fault, request, io_fault, message, context,
  retry_context, Attempted, retryable,
}
use sakai.Notification.{Duration}
use sakai.Num.{IntErrorKind, parse_unsigned, u64_max, print}
use sakai.Os.{IoError}
use sakai.Str.{Str, codes, trim}

-- The clock: what is left until an HTTP date, and whether the timer can represent an instant that far
-- ahead.
pub record Clock : Type 0 where
  pub until_http_date : Str → Option Duration
  pub is_representable : Duration → Bool

-- `Duration::checked_mul`, of a duration in normal form.
unfoldable pub checked_mul : Duration → ℕ → Option Duration
checked_mul d n =
    if leb (d.secs * n + d.nanos * n / 1000000000) u64_max
    then some
        (record { secs = d.secs * n + d.nanos * n / 1000000000; nanos = d.nanos * n % 1000000000 })
    else none

abbrev is_digit : ℕ → Bool
is_digit c = leb b'0' c && leb c b'9'

abbrev seconds : Result IntErrorKind ℕ → Option Duration
seconds (ok n) = some (record { secs = n; nanos = 0 })
seconds (err e) = none

module _ (clock : Clock) where
  -- `RetryAfter::parse`
  unfoldable pub parse_retry_after : Str → Option Duration
  unfolding trim parse_unsigned
  parse_retry_after text =
      and_then
        (if all is_digit (trim text)
          then seconds (parse_unsigned u64_max (trim text))
          else clock.until_http_date (trim text))
        (λ delay. if clock.is_representable delay then some delay else none)

-- `RetryAfter::delay`
unfoldable pub retry_delay_of : Fault → Duration → Duration
retry_delay_of (retry_context after e) fallback = after
retry_delay_of (context text e) fallback = retry_delay_of e fallback
retry_delay_of _ fallback = fallback

-- A part of the body: received and written, or a failure, of a write behind some of the part.
pub data Chunk : Type 0 where
  received : Str → Chunk
  lost : RequestError → Chunk
  unwritten : IoError → Str → Chunk

pub record Download : Type 0 where
  pub status : StatusCode
  pub retry_after : Option Str
  pub error_for_status : Result RequestError (Unit {0})
  pub create : Result IoError (Unit {0})
  pub chunks : List Chunk

abbrev pub Reply : Type 0
Reply = Result RequestError Download

-- The file that is written: there is none, or it holds a text.
abbrev pub Partial : Type 0
Partial = Option Str

-- The loop over the parts, behind what was written.
unfoldable pub write_chunks : List Chunk → Str → Attempted (Unit {0}) × Partial
write_chunks [] output = (ok tt, some output)
write_chunks (received text ∷ chunks) output = write_chunks chunks (output ++ text)
write_chunks (lost e ∷ chunks) output = (err (request e), some output)
write_chunks (unwritten e text ∷ chunks) output = (err (io_fault e), some (output ++ text))

module _ (clock : Clock) where
  abbrev retry_after_of : Download → Option Duration
  retry_after_of d =
      if d.status.code == too_many_requests
      then and_then d.retry_after (parse_retry_after clock)
      else none

  abbrev with_retry : Option Duration → Fault → Fault
  with_retry none error = error
  with_retry (some after) error = retry_context after error

  abbrev pub of_create :
      List Chunk → Partial → Result IoError (Unit {0}) → Attempted (Unit {0}) × Partial
  of_create chunks partial (err e) = (err (io_fault e), partial)
  of_create chunks partial (ok done) = write_chunks chunks []

  abbrev pub of_status :
      Download → Partial → Result RequestError (Unit {0}) → Attempted (Unit {0}) × Partial
  of_status d partial (err e) = (err (with_retry (retry_after_of d) (request e)), partial)
  of_status d partial (ok done) = of_create d.chunks partial d.create

  -- `Kernel::download_once`
  unfoldable pub download_once : Reply → Partial → Attempted (Unit {0}) × Partial
  unfolding write_chunks parse_retry_after
  download_once (err e) partial = (err (request e), partial)
  download_once (ok d) partial = of_status d partial d.error_for_status

-- `MAX_DOWNLOAD_ATTEMPTS`
abbrev pub max_download_attempts : ℕ
max_download_attempts = 3

-- What a download leaves behind: the file, and its pauses, the last one first.
pub record Progress : Type 0 where
  pub partial : Partial
  pub waits : List Duration

module _ (url : Str) (retry_delay : Duration) where
  abbrev budget : ℕ → Str
  budget attempt = print attempt ++ (b'/' ∷ (print max_download_attempts ++ (codes ": " ++ url)))

  abbrev pub pause :
      Fault → Partial → List Duration → Option Duration → Flow Progress (Attempted (Unit {0}))
  pause error partial waits none =
      return (err (message (codes "kernel retry delay overflow")))
        (record { partial = partial; waits = waits })
  pause error partial waits (some backoff) =
      continue (record { partial = partial; waits = retry_delay_of error backoff ∷ waits })

  -- The match of the loop of `Kernel::download`.
  unfoldable pub download_attempt :
      ℕ → List Duration → Attempted (Unit {0}) × Partial → Flow Progress (Attempted (Unit {0}))
  unfolding retryable retry_delay_of checked_mul
  download_attempt attempt waits (ok done, partial) =
      return (ok tt) (record { partial = partial; waits = waits })
  download_attempt attempt waits (err error, partial) =
      if ltb attempt max_download_attempts && retryable error
      then pause error partial waits (checked_mul retry_delay attempt)
      else return
          (err (context (codes "kernel download failed on attempt " ++ budget attempt) error))
          (record { partial = partial; waits = waits })

  abbrev pub exhausted : Attempted (Unit {0})
  exhausted = err (message (codes "kernel download exhausted retries: " ++ url))

  module _ (clock : Clock) (replies : ℕ → Reply) where
    abbrev pub download_body : ℕ → Progress → Flow Progress (Attempted (Unit {0}))
    download_body attempt progress =
        download_attempt attempt progress.waits
          (download_once clock (replies attempt) progress.partial)

    -- `Kernel::download`
    unfoldable pub download : Partial → Attempted (Unit {0}) × Progress
    unfolding for_attempts download_attempt download_once
    download partial =
        for_attempts download_body exhausted max_download_attempts 1
          (record { partial = partial; waits = [] })
