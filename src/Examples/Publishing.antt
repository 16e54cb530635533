-- ===== src/Examples/Publishing.antt =====
-- Waiting for a version in the registry: it is missing at first, and visible at the second request.
use sakai.Base.{
  ◌==◌, if◌then◌else◌, ok, ℕ, zero, suc, ◌≤◌, ◌≡◌, refl, ap, false, Option, some, [], ◌∷◌, arith,
}
use sakai.Release.Registry.Integrity.{IsPublication, verify_registry-IsPublication}
use sakai.Release.Registry.Budget.{
  log_at, final, found, IsTransientBelow, IsDecidedAt, verify_registry-IsDecided,
  verify_registry-published,
}
use sakai.Release.Registry.{
  Candidate, RegistryVersion, Response, Sent, registry_version_at, requested, slept,
  verify_registry,
}
use sakai.Str.{Str, codes}
use sakai.Notification.{Duration}

abbrev second : Duration
second = record { secs = 1; nanos = 0 }

abbrev answer : ℕ → Str → Response
answer code text = record {
  status = record { code = code; is_server_error = false };
  error_for_status = ok tt;
  text = ok text;
}

abbrev published_candidate : Candidate
published_candidate = record {
  version = codes "0.1.0";
  tag = codes "v0.1.0";
  commit = codes "c0ffee";
  archive = codes "sakai-0.1.0.crate";
  sha256 = codes "digest";
}

abbrev visible : RegistryVersion
visible = record { checksum = codes "digest"; yanked = false }

abbrev json : Str → Option RegistryVersion
json text = some visible

abbrev replies : ℕ → Sent
replies n = ok (if n == 1 then answer 404 [] else answer 200 (codes "{}"))

second_request :
    verify_registry json replies published_candidate 12 second
    ≡ (ok tt, requested 2 ∷ slept second ∷ requested 1 ∷ [])
unfolding verify_registry
second_request = refl

first_missing : IsTransientBelow json replies published_candidate 12 second 2
unfolding registry_version_at
first_missing zero low high = absurd (omega arith)
first_missing (suc zero) low high = refl
first_missing (suc (suc j)) low high = absurd (omega arith)

visible_then : found json replies published_candidate 12 second 2 ≡ ok (some visible)
unfolding registry_version_at
visible_then = refl

verify_registry-published_example :
    verify_registry json replies published_candidate 12 second ≡ (ok tt, log_at second 2)
verify_registry-published_example =
    verify_registry-published json replies published_candidate 12 second 2 visible (omega arith)
      (omega arith) first_missing visible_then

verify_registry-IsDecided_example :
    (k : ℕ) × IsDecidedAt json replies published_candidate 12 second k
    × (verify_registry json replies published_candidate 12 second
        ≡ (final 12 second k (found json replies published_candidate 12 second k), log_at second k))
verify_registry-IsDecided_example =
    verify_registry-IsDecided json replies published_candidate 12 second (omega arith)

verify_registry-IsPublication_example :
    (k : ℕ) × (published : RegistryVersion) × (1 ≤ k)
    × (k ≤ 12)
    × IsPublication json published_candidate (replies k) published
verify_registry-IsPublication_example =
    verify_registry-IsPublication json replies published_candidate 12 second
      (ap (λ r. r.0) second_request)
