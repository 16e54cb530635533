-- ===== src/Release/Github.antt =====
-- The notes on GitHub, xtask/src/release.rs. Building the client is left out. The server is an
-- argument: what it answers in a state, and the state after a release is posted.
pub mod Twice
use sakai.Base.{
  ◌==◌, if◌then◌else◌, Result, ok, err, ◌>>=◌, ◌>>◌, map_err, ok_or, Bool, true, false, not, Option,
  none, some, List, [], ◌∷◌,
}
use sakai.Http.{not_found, RequestError, request, json_fault, message, Attempted}
use sakai.Os.{IoError}
use sakai.Release.Notes.{release_notes}
use sakai.Release.Package.{ensure, Output, command}
use sakai.Release.Registry.{
  Candidate, RegistryVersion, Response, Sent, FromJson, registry_version_at,
}
use sakai.Release.Retained.{notes_path, Files, read_file, CandidateJson, candidate}
use sakai.Release.Version.{Semver}
use sakai.Str.{Str, codes, str_eq, trim}

-- The body of the request that creates a release.
pub record NewRelease : Type 0 where
  pub tag_name : Str
  pub target_commitish : Str
  pub name : Str
  pub body : Str
  pub draft : Bool
  pub prerelease : Bool

-- The fields of an existing release that are looked at, if they have the right type.
pub record ExistingRelease : Type 0 where
  pub body : Option Str
  pub draft : Option Bool
  pub prerelease : Option Bool

pub record Server : Type 1 where
  pub State : Type 0
  -- `GET` of the release with a tag
  pub get : State → Str → Sent
  -- `POST`, with the answer's `error_for_status`
  pub post : State → NewRelease → Result RequestError (Unit {0}) × State
  -- `serde_json::from_str` to a `Value`
  pub from_json : Str → Option ExistingRelease

pub data Published : Type 0 where
  created matching : Published

abbrev is_text : Option Str → Str → Bool
is_text none text = false
is_text (some s) text = str_eq s text

-- `== Some(false)`
abbrev is_false : Option Bool → Bool
is_false (some b) = not b
is_false none = false

-- The comparison with a release that exists.
unfoldable pub match_existing : Str → ExistingRelease → Attempted Published
unfolding str_eq
match_existing notes existing = do
  ensure (is_text existing.body notes) (codes "existing GitHub release has different notes")
  ensure (is_false existing.draft) (codes "existing GitHub release is still a draft")
  ensure (is_false existing.prerelease) (codes "existing GitHub release is marked as a prerelease")
  ok matching

abbrev pub new_release : Candidate → Str → NewRelease
new_release c notes = record {
  tag_name = c.tag;
  target_commitish = c.commit;
  name = c.tag;
  body = notes;
  draft = false;
  prerelease = false;
}

module _ (server : Server) where
  abbrev pub of_post :
      Result RequestError (Unit {0}) × server.State → Attempted Published × server.State
  of_post (ok done, s) = (ok created, s)
  of_post (err e, s) = (err (request e), s)

  abbrev pub read_existing : Response → Attempted ExistingRelease
  read_existing response = do
    map_err request response.error_for_status
    text ← map_err request response.text
    ok_or (server.from_json text) json_fault

  -- The match on the answer to the `GET`.
  abbrev pub of_get : Candidate → Str → server.State → Sent → Attempted Published × server.State
  of_get c notes s (err e) = (err (request e), s)
  of_get c notes s (ok response) =
      if response.status.code == not_found
      then of_post (server.post s (new_release c notes))
      else (read_existing response >>= match_existing notes, s)

  -- The requests of `Release::github_release`.
  unfoldable pub publish : Candidate → Str → server.State → Attempted Published × server.State
  unfolding match_existing
  publish c notes s = of_get c notes s (server.get s c.tag)

-- What the steps before it left and what the environment answers.
pub record Inputs (semver : Semver) : Type 0 where
  pub json : CandidateJson
  pub run : Str → List Str → Result IoError Output
  pub files : Files
  pub registry_json : FromJson
  pub registry : Candidate → Sent
  pub gh_token : Option Str

module _ (semver : Semver) (i : Inputs semver) where
  abbrev is_published : Option RegistryVersion → Bool
  is_published none = false
  is_published (some published) = true

  -- The guards of `Release::github_release`, before the credentials are read: the candidate and its
  -- notes.
  unfoldable pub checked_release : Attempted (Candidate × Str)
  unfolding candidate command registry_version_at release_notes str_eq trim
  checked_release = do
    c ← candidate semver i.json i.run i.files
    head ← command i.run (codes "git") (codes "rev-parse" ∷ codes "HEAD" ∷ [])
    ensure (str_eq c.commit (trim head))
        (codes "checkout differs from the release candidate's commit")
    published ← registry_version_at i.registry_json c (i.registry c)
    ensure (is_published published) (codes "crate upload has not completed")
    notes ← read_file i.files notes_path
    changelog ← read_file i.files (codes "sakai/CHANGELOG.md")
    expected ← release_notes changelog c.version
    ensure (str_eq notes expected) (codes "candidate notes differ from the tagged changelog")
    ok (c, notes)

  abbrev pub authorized : Attempted (Candidate × Str)
  authorized = do
    checked ← checked_release
    token ← ok_or i.gh_token (message (codes "GitHub release job requires GH_TOKEN"))
    ok checked

  module _ (server : Server) where
    abbrev pub of_checked :
        Attempted (Candidate × Str) → server.State → Attempted Published × server.State
    of_checked (err e) s = (err e, s)
    of_checked (ok (c, notes)) s = publish server c notes s

    -- `Release::github_release`
    unfoldable pub github_release : server.State → Attempted Published × server.State
    unfolding publish checked_release
    github_release s = of_checked authorized s
