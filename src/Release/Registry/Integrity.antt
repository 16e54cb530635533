-- ===== src/Release/Registry/Integrity.antt =====
-- What a verified publication is: xtask/src/release.rs.
use sakai.Base.{
  ltb, ◌==◌, if◌then◌else◌, ltb→lt, Bool-cases, ok, err, ◌>>=◌, map_err, ok_or, >>=-Passes, ok-eq,
  map_err-eq-ok, ok_or-eq-ok, ℕ, ◌≤◌, ◌≡◌, refl, sym, ap, ◌∙◌, inl, inr, Bool, true, false, Option,
  none, some, arith,
}
use sakai.Release.Registry.Budget.{final, verify_registry-IsDecided}
use sakai.Notification.{Duration}
use sakai.Http.{not_found, request, json_fault, Attempted}
use sakai.Release.Registry.{
  Candidate, RegistryVersion, Response, Sent, FromJson, matching_registry_version,
  published_version, registry_version_at, verify_registry,
}
use sakai.Str.Equal.{str_eq_iff}
use sakai.Str.{Str}

module _ (from_json : FromJson) (candidate : Candidate) where
  -- A response with the archive of the candidate, which is not yanked.
  abbrev pub IsPublication : Sent → RegistryVersion → Type 0
  IsPublication sent published =
      (response : Response) × (text : Str) × (sent ≡ ok response)
      × (response.text ≡ ok text)
      × (from_json text ≡ some published)
      × (published.checksum ≡ candidate.sha256)
      × (published.yanked ≡ false)

  matching_lem :
      (published : RegistryVersion) {done : Unit {0}}
      → matching_registry_version candidate published ≡ ok done
      → (published.checksum ≡ candidate.sha256) × (published.yanked ≡ false)
  unfolding matching_registry_version
  matching_lem published h = ground (arith, str_eq_iff published.checksum candidate.sha256)

  published-IsPublication :
      (response : Response) (published : RegistryVersion)
      → published_version from_json candidate response ≡ ok published
      → IsPublication (ok response) published
  published-IsPublication response published h =
      let (done, e1, h1) = >>=-Passes (map_err request response.error_for_status) _ h in
      let (text, e2, h2) = >>=-Passes (map_err request response.text) _ h1 in
      let (v, e3, h3) = >>=-Passes (ok_or (from_json text) json_fault) _ h2 in
      let (done', e4, h4) = >>=-Passes (matching_registry_version candidate v) _ h3 in
      let same : v ≡ published = ok-eq h4 in
      let (checksum, yanked) = matching_lem v e4 in
      (
        response,
        text,
        refl,
        map_err-eq-ok request response.text e2,
        ok_or-eq-ok (from_json text) json_fault e3 ∙ ap some same,
        rw (← same) checksum,
        rw (← same) yanked,
      )

  found-IsPublication :
      (sent : Sent) (published : RegistryVersion)
      → registry_version_at from_json candidate sent ≡ ok (some published)
      → IsPublication sent published
  unfolding registry_version_at
  found-IsPublication (err e) published h = cc
  found-IsPublication (ok response) published h =
      published-IsPublication response published (visible (response.status.code == not_found) h)
    where
      visible :
          (missing : Bool)
          → Path
              (Attempted (Option RegistryVersion))
              (if missing
                then ok none
                else (do v ← published_version from_json candidate response; ok (some v)))
              (ok (some published))
          → published_version from_json candidate response ≡ ok published
      visible true h = cc
      visible false h =
          let (v, e, e') = >>=-Passes (published_version from_json candidate response) _ h in
          e ∙ ap ok (cc)

final-ok :
    (attempts : ℕ) (retry_delay : Duration) (k : ℕ) (f : Attempted (Option RegistryVersion))
    → final attempts retry_delay k f ≡ ok tt
    → (published : RegistryVersion) × (f ≡ ok (some published))
final-ok attempts retry_delay k (ok none) h = cc
final-ok attempts retry_delay k (ok (some published)) h = (published, refl)
final-ok attempts retry_delay k (err e) h = cc

module _ (from_json : FromJson) (replies : ℕ → Sent) (candidate : Candidate) (attempts : ℕ)
    (retry_delay : Duration) where
  -- A verification that succeeds saw the publication in one of the attempts of its budget: a response
  -- whose text holds the checksum of the candidate's archive, and says that it is not yanked.
  pub verify_registry-IsPublication :
      (verify_registry from_json replies candidate attempts retry_delay).0 ≡ ok tt
      → (k : ℕ) × (published : RegistryVersion) × (1 ≤ k)
        × (k ≤ attempts)
        × IsPublication from_json candidate (replies k) published
  unfolding verify_registry
  verify_registry-IsPublication h = elim (Bool-cases (ltb 0 attempts)) [
    | inl pos ↦
        let (k, (low, high, below, stop), e) =
          verify_registry-IsDecided from_json replies candidate attempts retry_delay
            (ltb→lt 0 attempts pos) in
        let (published, f) = final-ok attempts retry_delay k _ (sym (ap (λ r. r.0) e) ∙ h) in
        (k, published, low, high, found-IsPublication from_json candidate (replies k) published f)
    | inr none_left ↦ cc (rw none_left at h)
  ]
