-- ===== src/Vmtest/Image/Complete.antt =====
-- An image in the cache is a complete one: xtask/src/vmtest/kernel.rs.
use sakai.Base.{
  if◌then◌else◌, Result, ok, err, ℕ, ◌≤◌, ◌≡◌, refl, sym, ◌∙◌, ◌≢◌, ◌⊎◌, inl, inr, Bool, true,
  false, Option, none, some,
}
use sakai.Os.{IoError}
use sakai.Http.{RequestError, Fault, request, io_fault, Attempted}
use sakai.Str.{Str}
use sakai.Vmtest.Download.{Clock, Reply, max_download_attempts, Progress, download}
use sakai.Vmtest.Download.Whole.{IsDelivered, download-IsDelivered}
use sakai.Vmtest.Image.{
  Cache, Environment, renamed, download_retry_delay, cleaned, of_download, of_client, fetch,
  prepared, of_prepared, image,
}

module _ (url : Str) (clock : Clock) (replies : ℕ → Reply) (env : Environment) where
  -- The whole body of the response to one of the attempts.
  abbrev pub IsComplete : Str → Type 0
  IsComplete text = (k : ℕ) × (1 ≤ k) × (k ≤ max_download_attempts) × IsDelivered (replies k) text

  -- What becomes of the image: it stays, or the call succeeded, there was none, and it is complete.
  abbrev pub Keeps : Cache → Attempted (Unit {0}) × Cache → Type 0
  Keeps cache r =
      ((r.1.destination ≡ cache.destination) × (r.0 ≡ ok tt → r.1.destination ≢ none))
      ⊎ ((cache.destination ≡ none)
          × (r.0 ≡ ok tt)
          × (r.1.partial ≡ none)
          × (text : Str) × (r.1.destination ≡ some text)
          × IsComplete text)

  cleaned-Keeps :
      (cache after : Cache) (e : Fault)
      → after.destination ≡ cache.destination
      → Keeps cache (cleaned env (err e, after))
  unfolding cleaned
  cleaned-Keeps cache after e same = inl (kept env.removes ∙ same, λ h. cc)
    where
      kept :
          (removes : Bool)
          → (if removes then record after { partial = none } else after).destination
            ≡ after.destination
      kept true = refl
      kept false = refl

  renamed-Keeps :
      (cache : Cache) (progress : Progress) (rename : Result IoError (Unit {0}))
      → cache.destination ≡ none
      → (text : Str) × (progress.partial ≡ some text) × IsComplete text
      → Keeps cache (cleaned env (renamed (record cache { partial = progress.partial }) rename))
  renamed-Keeps cache progress (err e) absent complete =
      cleaned-Keeps cache (record cache { partial = progress.partial }) (io_fault e) refl
  renamed-Keeps cache progress (ok done) absent (text, e, complete) =
      unfold cleaned in inr (absent, refl, refl, text, e, complete)

  download-Keeps :
      (cache : Cache) (r : Attempted (Unit {0}) × Progress)
      → cache.destination ≡ none
      → download url download_retry_delay clock replies cache.partial ≡ r
      → Keeps cache (cleaned env (of_download url clock replies env cache r))
  download-Keeps cache (err e, progress) absent h =
      cleaned-Keeps cache (record cache { partial = progress.partial }) e refl
  download-Keeps cache (ok done, progress) absent h =
      let (k, text, low, high, delivered, e) =
        download-IsDelivered url download_retry_delay clock replies cache.partial progress h in
      renamed-Keeps cache progress env.rename absent (text, e, (k, low, high, delivered))

  fetch-Keeps :
      (cache : Cache) (client : Result RequestError (Unit {0}))
      → cache.destination ≡ none
      → Keeps cache (cleaned env (of_client url clock replies env cache client))
  fetch-Keeps cache (err e) absent = cleaned-Keeps cache cache (request e) refl
  fetch-Keeps cache (ok done) absent = download-Keeps cache _ absent refl

  -- The image in the cache is never a part of a download: a call leaves it as it is, and succeeds only
  -- if there is one; or there was none, the call succeeds, and it is then the whole body of the
  -- response to one of the attempts, with no download beside it.
  pub image-Keeps : (cache : Cache) → Keeps cache (image url clock replies env cache)
  unfolding image fetch
  image-Keeps cache = by_prepared (prepared url clock replies env) cache.destination refl
    where
      by_prepared :
          (r : Attempted (Unit {0})) (d : Option Str)
          → cache.destination ≡ d
          → Keeps cache (of_prepared url clock replies env cache r d)
      by_prepared (err e) d same = inl (refl, λ h. cc)
      by_prepared (ok done) (some text) same = inl (refl, λ h none'. cc (sym same ∙ none'))
      by_prepared (ok done) none same = fetch-Keeps cache env.client same
