-- ===== src/Release/Registry.antt =====
-- Waiting for a published version in the registry, xtask/src/release.rs. The outcomes of the
-- requests are an argument, by the number of the attempt.
pub mod Budget
pub mod Integrity
use sakai.Attempts.{Flow, return, continue, for_attempts}
use sakai.Base.{
  ltb, ◌==◌, if◌then◌else◌, Result, ok, err, ◌>>=◌, ◌>>◌, map_err, ok_or, ℕ, Bool, ◌&&◌, Option,
  none, some, List, [], ◌∷◌, ◌++◌,
}
use sakai.Http.{
  StatusCode, not_found, RequestError, Fault, request, json_fault, message, context, Attempted,
  retryable,
}
use sakai.Notification.{Duration}
use sakai.Num.{print}
use sakai.Str.{Str, codes, str_eq}

-- What a release consists of.
pub record Candidate : Type 0 where
  pub version : Str
  pub tag : Str
  pub commit : Str
  pub archive : Str
  pub sha256 : Str

pub record RegistryVersion : Type 0 where
  pub checksum : Str
  pub yanked : Bool

-- A response of `reqwest`: its status, and the outcomes of `error_for_status` and of `text` behind it.
pub record Response : Type 0 where
  pub status : StatusCode
  pub error_for_status : Result RequestError (Unit {0})
  pub text : Result RequestError Str

abbrev pub Sent : Type 0
Sent = Result RequestError Response

-- `serde_json::from_str` to a `RegistryResponse`, whose only field is the version.
abbrev pub FromJson : Type 0
FromJson = Str → Option RegistryVersion

-- `Release::matching_registry_version`
unfoldable pub matching_registry_version : Candidate → RegistryVersion → Attempted (Unit {0})
unfolding str_eq
matching_registry_version candidate published =
    if published.yanked
    then err (message (codes "published version is yanked; do not reuse it"))
    else if str_eq published.checksum candidate.sha256
    then ok tt
    else err
        (message (codes "published version has a different archive; do not skip or overwrite it"))

module _ (from_json : FromJson) (candidate : Candidate) where
  abbrev pub published_version : Response → Attempted RegistryVersion
  published_version response = do
    map_err request response.error_for_status
    text ← map_err request response.text
    published ← ok_or (from_json text) json_fault
    matching_registry_version candidate published
    ok published

  -- `Release::registry_version_at`, on the outcome of sending the request.
  unfoldable pub registry_version_at : Sent → Attempted (Option RegistryVersion)
  unfolding matching_registry_version
  registry_version_at sent = do
    response ← map_err request sent
    if response.status.code == not_found
        then ok none
        else (do published ← published_version response; ok (some published))

-- What `verify_registry` does beside its result, the last one first.
pub data Effect : Type 0 where
  requested : ℕ → Effect
  slept : Duration → Effect

module _ (attempts : ℕ) (retry_delay : Duration) where
  abbrev budget : ℕ → Str
  budget attempt = print attempt ++ b'/' ∷ print attempts

  abbrev pub never_visible : ℕ → Fault
  never_visible attempt = message (
      codes "published version did not appear in the crates.io API after "
      ++ (budget attempt ++ codes " attempts"))

  abbrev pub failed_on : ℕ → Fault → Fault
  failed_on attempt error =
      context (codes "registry verification failed on attempt " ++ budget attempt) error

  abbrev pub after_sleep : List Effect → Flow (List Effect) (Attempted (Unit {0}))
  after_sleep log = continue (slept retry_delay ∷ log)

  -- The match of the loop, on what an attempt found out.
  unfoldable pub registry_attempt :
      ℕ
      → List Effect
      → Attempted (Option RegistryVersion)
      → Flow (List Effect) (Attempted (Unit {0}))
  unfolding retryable
  registry_attempt attempt log (ok (some published)) = return (ok tt) log
  registry_attempt attempt log (ok none) =
      if ltb attempt attempts then after_sleep log else return (err (never_visible attempt)) log
  registry_attempt attempt log (err error) =
      if ltb attempt attempts && retryable error
      then after_sleep log
      else return (err (failed_on attempt error)) log

abbrev pub exhausted : Attempted (Unit {0})
exhausted = err (message (codes "registry verification exhausted its attempt budget"))

module _ (from_json : FromJson) (replies : ℕ → Sent) (candidate : Candidate) (attempts : ℕ)
    (retry_delay : Duration) where
  abbrev pub registry_body : ℕ → List Effect → Flow (List Effect) (Attempted (Unit {0}))
  registry_body attempt log =
      registry_attempt attempts retry_delay attempt (requested attempt ∷ log)
        (registry_version_at from_json candidate (replies attempt))

  -- `Release::verify_registry`, with what it does.
  unfoldable pub verify_registry : Attempted (Unit {0}) × List Effect
  unfolding for_attempts registry_attempt registry_version_at
  verify_registry =
      if ltb 0 attempts
      then for_attempts registry_body exhausted attempts 1 []
      else (err (message (codes "registry verification requires at least one attempt")), [])
