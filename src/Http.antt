-- ===== src/Http.antt =====
-- Failures of the developer tasks and which of them are retried: xtask/src/http.rs. What `reqwest`
-- says of a failed request is a record of the answers that the code asks for.
use sakai.Base.{◌==◌, Result, ℕ, Bool, false, ◌||◌, Option, none, some}
use sakai.Notification.{Duration}
use sakai.Os.{IoError}
use sakai.Str.{Str}

-- `reqwest::StatusCode`: its number, and what `is_server_error` says of it.
pub record StatusCode : Type 0 where
  pub code : ℕ
  pub is_server_error : Bool

abbrev pub not_found : ℕ
not_found = 404

abbrev pub too_many_requests : ℕ
too_many_requests = 429

-- `reqwest::Error`
pub record RequestError : Type 0 where
  pub status : Option StatusCode
  pub is_connect : Bool
  pub is_request : Bool
  pub is_timeout : Bool
  pub is_body : Bool
  pub is_decode : Bool

-- `anyhow::Error`: what the tasks put into it, and the contexts around it.
pub data Fault : Type 0 where
  request : RequestError → Fault
  io_fault : IoError → Fault
  json_fault : Fault
  version_fault : Fault
  message : Str → Fault
  context : Str → Fault → Fault
  retry_context : Duration → Fault → Fault

abbrev pub Attempted : Type 0 → Type 0
Attempted A = Result Fault A

-- `error.downcast_ref::<reqwest::Error>()` looks below the contexts.
unfoldable pub downcast_request : Fault → Option RequestError
downcast_request (request e) = some e
downcast_request (context text e) = downcast_request e
downcast_request (retry_context after e) = downcast_request e
downcast_request _ = none

abbrev is_transient_status : RequestError → Option StatusCode → Bool
is_transient_status e (some status) = status.code == too_many_requests || status.is_server_error
is_transient_status e none =
    e.is_connect || (e.is_request || (e.is_timeout || (e.is_body || e.is_decode)))

abbrev pub is_transient : Option RequestError → Bool
is_transient none = false
is_transient (some e) = is_transient_status e e.status

-- `retryable`
unfoldable pub retryable : Fault → Bool
unfolding downcast_request
retryable error = is_transient (downcast_request error)
