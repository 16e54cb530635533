-- ===== src/Release/Github/Twice.antt =====
-- A release is created once: xtask/src/release.rs.
use sakai.Base.{
  ◌==◌, if◌then◌else◌, Result, ok, err, ◌>>=◌, ◌≡◌, refl, sym, ap, ◌∙◌, subst, ◌⊎◌, inl, inr, Bool,
  true, false, some, arith,
}
use sakai.Release.Version.{Semver}
use sakai.Str.Equal.{str_eq_refl}
use sakai.Http.{not_found, RequestError, Attempted}
use sakai.Release.Registry.{Candidate, Response, Sent}
use sakai.Release.Github.{
  NewRelease, ExistingRelease, Server, Published, matching, match_existing, new_release, of_post,
  read_existing, of_get, publish, Inputs, authorized, of_checked, github_release,
}
use sakai.Str.{Str}

module _ (server : Server) where
  -- A response with the release, in JSON.
  abbrev pub IsRelease : NewRelease → Sent → Type 0
  IsRelease release sent =
      (response : Response) × (text : Str) × (sent ≡ ok response)
      × ((response.status.code == not_found) ≡ false)
      × (response.error_for_status ≡ ok tt)
      × (response.text ≡ ok text)
      × (server.from_json text
          ≡ some (record {
            body = some release.body;
            draft = some release.draft;
            prerelease = some release.prerelease;
          }))

  -- A release that was posted is found by its tag.
  abbrev pub KeepsReleases : Type 0
  KeepsReleases =
      (s : server.State) (release : NewRelease)
      → (server.post s release).0 ≡ ok tt
      → IsRelease release (server.get (server.post s release).1 release.tag_name)

  publish-release :
      (c : Candidate) (notes : Str) (s : server.State)
      → IsRelease (new_release c notes) (server.get s c.tag)
      → publish server c notes s ≡ (ok matching, s)
  unfolding publish match_existing
  publish-release c notes s (response, text, sent, found, status, body, json) =
      rw (sent, found) (rw (status, body) (rw json (rw (str_eq_refl notes) refl)))

  -- A publication that succeeded left the release behind, or found it and changed nothing.
  abbrev Settled : Candidate → Str → server.State → Published → server.State → Type 0
  Settled c notes s p s' =
      IsRelease (new_release c notes) (server.get s' c.tag) ⊎ ((p ≡ matching) × (s' ≡ s))

  of_post-Settled :
      (c : Candidate) (notes : Str) (s : server.State) {p : Published} {s' : server.State}
      → KeepsReleases
      → (posted : Result RequestError (Unit {0}) × server.State)
      → server.post s (new_release c notes) ≡ posted
      → of_post server posted ≡ (ok p, s')
      → Settled c notes s p s'
  of_post-Settled c notes s keeps (err e, t) same h = cc
  of_post-Settled c notes s keeps (ok done, t) same h = inl (
      subst (λ state. IsRelease (new_release c notes) (server.get state c.tag))
        (ap (λ r. r.1) same ∙ ap (λ r. r.1) h) (keeps s (new_release c notes) (ap (λ r. r.0) same)))

  match_existing-matching :
      (notes : Str) (existing : Attempted ExistingRelease) {p : Published}
      → (existing >>= match_existing notes) ≡ ok p
      → p ≡ matching
  unfolding match_existing
  match_existing-matching notes (err e) h = cc
  match_existing-matching notes (ok existing) h = ground arith

  of_get-Settled :
      (c : Candidate) (notes : Str) (s : server.State) (sent : Sent) {p : Published}
      {s' : server.State}
      → KeepsReleases
      → of_get server c notes s sent ≡ (ok p, s')
      → Settled c notes s p s'
  of_get-Settled c notes s (err e) keeps h = cc
  of_get-Settled c notes s (ok response) {p} {s'} keeps h =
      by_status (response.status.code == not_found) h
    where
      by_status :
          (missing : Bool)
          → Path
              (Attempted Published × server.State)
              (if missing
                then of_post server (server.post s (new_release c notes))
                else (read_existing server response >>= match_existing notes, s))
              (ok p, s')
          → Settled c notes s p s'
      by_status true h = of_post-Settled c notes s keeps _ refl h
      by_status false h = inr (
        match_existing-matching notes (read_existing server response) (ap (λ r. r.0) h),
        sym (ap (λ r. r.1) h),
      )

module _ (semver : Semver) (i : Inputs semver) (server : Server) where
  -- A job that succeeded can be repeated: it then finds the release that it left, matching, and
  -- changes nothing, if the server finds a release that was posted by its tag.
  pub github_release-twice :
      (s s' : server.State) (p : Published)
      → KeepsReleases server
      → github_release semver i server s ≡ (ok p, s')
      → github_release semver i server s' ≡ (ok matching, s')
  unfolding github_release publish
  github_release-twice s s' p keeps h = again (authorized semver i) h
    where
      again :
          (checked : Attempted (Candidate × Str))
          → of_checked semver i server checked s ≡ (ok p, s')
          → of_checked semver i server checked s' ≡ (ok matching, s')
      again (err e) h = cc
      again (ok (c, notes)) h =
          elim (of_get-Settled server c notes s (server.get s c.tag) keeps h) [
            | inl left ↦ publish-release server c notes s' left
            | inr (e, same) ↦
                subst (λ state. publish server c notes state ≡ (ok matching, state)) (sym same) (cc)
          ]
