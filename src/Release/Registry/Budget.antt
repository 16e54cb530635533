-- ===== src/Release/Registry/Budget.antt =====
-- How the verification in the registry ends, and with how many requests: xtask/src/release.rs.
use sakai.Base.{
  ltb, ltb→lt, lt→ltb, Bool-cases, ok, err, ℕ, zero, suc, ◌≤◌, ◌<◌, ◌≡◌, refl, ap, ◌∙◌, subst, ◌⊎◌,
  inl, inr, Bool, true, false, Option, none, some, List, [], ◌∷◌, arith,
}
use sakai.Notification.{Duration}
use sakai.Attempts.{Flow, return, continue, Continues, here, next, Ends, for_attempts-Ends}
use sakai.Http.{Attempted, retryable}
use sakai.Release.Registry.{
  Candidate, RegistryVersion, Sent, FromJson, registry_version_at, Effect, requested, slept,
  never_visible, failed_on, registry_attempt, exhausted, registry_body, verify_registry,
}

abbrev pub is_transient_find : Attempted (Option RegistryVersion) → Bool
is_transient_find (ok none) = true
is_transient_find (ok (some published)) = false
is_transient_find (err error) = retryable error

module _ (retry_delay : Duration) where
  -- The requests and the pauses before an attempt, the last one first.
  abbrev pub log_before : ℕ → List Effect
  log_before zero = []
  log_before (suc zero) = []
  log_before (suc (suc n)) = slept retry_delay ∷ requested (suc n) ∷ log_before (suc n)

  abbrev pub log_at : ℕ → List Effect
  log_at k = requested k ∷ log_before k

module _ (attempts : ℕ) (retry_delay : Duration) where
  -- What an attempt makes of what it found, if it is the last one.
  abbrev pub final : ℕ → Attempted (Option RegistryVersion) → Attempted (Unit {0})
  final k (ok (some published)) = ok tt
  final k (ok none) = err (never_visible attempts retry_delay k)
  final k (err error) = err (failed_on attempts retry_delay k error)

  registry_attempt-continue :
      (n : ℕ) (log u : List Effect) (found : Attempted (Option RegistryVersion))
      → registry_attempt attempts retry_delay n log found ≡ continue u
      → (n < attempts) × (is_transient_find found ≡ true) × (u ≡ slept retry_delay ∷ log)
  unfolding registry_attempt
  registry_attempt-continue n log u (ok none) h = ground arith
  registry_attempt-continue n log u (ok (some p)) h = cc
  registry_attempt-continue n log u (err e) h = ground arith

  registry_attempt-return :
      (n : ℕ) (log t : List Effect) (a : Attempted (Unit {0}))
      (found : Attempted (Option RegistryVersion))
      → n ≤ attempts
      → registry_attempt attempts retry_delay n log found ≡ return a t
      → ((n ≡ attempts) ⊎ (is_transient_find found ≡ false)) × (a ≡ final n found) × (t ≡ log)
  unfolding registry_attempt
  registry_attempt-return n log t a (ok none) low h = ground arith
  registry_attempt-return n log t a (ok (some p)) low h = (inr refl, cc, cc)
  registry_attempt-return n log t a (err e) low h = ground arith

module _ (from_json : FromJson) (replies : ℕ → Sent) (candidate : Candidate) (attempts : ℕ)
    (retry_delay : Duration) where
  -- What the attempt of a number finds.
  abbrev pub found : ℕ → Attempted (Option RegistryVersion)
  found n = registry_version_at from_json candidate (replies n)

  abbrev body : ℕ → List Effect → Flow (List Effect) (Attempted (Unit {0}))
  body = registry_body from_json replies candidate attempts retry_delay

  -- Every attempt from the first up to one has to be repeated.
  abbrev pub IsTransientBelow : ℕ → Type 0
  IsTransientBelow k = (j : ℕ) → 1 ≤ j → j < k → is_transient_find (found j) ≡ true

  -- What a run of attempts that go on has found, and its log.
  Continues-log :
      (n : ℕ) {m : ℕ} {s u : List Effect}
      → Continues body (suc n) s m u
      → s ≡ log_before retry_delay (suc n)
      → (u ≡ log_before retry_delay m)
        × ((j : ℕ) → suc n ≤ j → j < m → is_transient_find (found j) ≡ true)
        × ((suc n ≡ m) ⊎ (m ≤ attempts))
  Continues-log n here e = (e, λ j low high. absurd (omega arith), inl refl)
  Continues-log n {m} (next {s = s} {s' = s'} step c) e =
      let (lt, transient, es) =
        registry_attempt-continue attempts retry_delay (suc n) (requested (suc n) ∷ s) s'
          (found (suc n)) step in
      let (eu, below, end) =
        Continues-log (suc n) c (es ∙ ap (λ log. slept retry_delay ∷ requested (suc n) ∷ log) e) in
      (
        eu,
        λ j low high. elim (Bool-cases (ltb (suc n) j)) [
          | inl later ↦ below j (ltb→lt (suc n) j later) high
          | inr same ↦ subst (λ i. is_transient_find (found i) ≡ true) (ground arith) transient
        ],
        elim end [ inl here' ↦ inr (omega arith) | inr within ↦ inr within ],
      )

  -- The verification is decided at one attempt: all before it found that they have to be repeated,
  -- and it is the last of the budget or found something else.
  abbrev pub IsDecidedAt : ℕ → Type 0
  IsDecidedAt k =
      (1 ≤ k)
      × (k ≤ attempts)
      × IsTransientBelow k
      × ((k ≡ attempts) ⊎ (is_transient_find (found k) ≡ false))

  of_end :
      (result : Attempted (Unit {0}) × List Effect)
      → 0 < attempts
      → Ends body exhausted attempts 1 [] result
      → (k : ℕ) × IsDecidedAt k
        × (result ≡ (final attempts retry_delay k (found k), log_at retry_delay k))
  of_end (a, t) pos (inl (k, u, low, high, c, r)) =
      let (eu, below, end) = Continues-log 0 c refl in
      let (stop, ea, et) =
        registry_attempt-return attempts retry_delay k (requested k ∷ u) t a (found k) (omega arith)
          r in
      (k, (low, omega arith, below, stop), cc)
  of_end (a, t) pos (inr (c, e)) =
      let (eu, below, end) = Continues-log 0 c refl in
      absurd (elim end [ inl none' ↦ omega arith | inr over ↦ omega arith ])

  -- With a budget of at least one attempt, the verification ends at one attempt within it, after one
  -- request for each attempt and a pause between them. Every attempt before it found no version or a
  -- failure that is retried; it is the last of the budget, or found the version or another failure,
  -- which is the result.
  pub verify_registry-IsDecided :
      0 < attempts
      → (k : ℕ) × IsDecidedAt k
        × (verify_registry from_json replies candidate attempts retry_delay
            ≡ (final attempts retry_delay k (found k), log_at retry_delay k))
  unfolding verify_registry
  verify_registry-IsDecided pos =
      rw (lt→ltb 0 attempts pos) (of_end _ pos (for_attempts-Ends body exhausted attempts 1 []))

  -- There is one attempt at which a verification is decided.
  IsDecidedAt-unique : (j k : ℕ) → IsDecidedAt j → IsDecidedAt k → j ≡ k
  IsDecidedAt-unique j k (low, high, below, stop) (low', high', below', stop') =
      elim (Bool-cases (ltb j k)) [
        | inl less ↦ absurd (earlier j k low (ltb→lt j k less) high' below' stop)
        | inr f ↦ elim (Bool-cases (ltb k j)) [
          | inl less ↦ absurd (earlier k j low' (ltb→lt k j less) high below stop')
          | inr g ↦ ground arith
        ]
      ]
    where
      earlier :
          (j k : ℕ)
          → 1 ≤ j
          → j < k
          → k ≤ attempts
          → IsTransientBelow k
          → (j ≡ attempts) ⊎ (is_transient_find (found j) ≡ false)
          → ⊥
      earlier j k low less high below (inl last) = omega arith
      earlier j k low less high below (inr stop) = cc (below j low less)

  -- If the first answer that is not repeated is the version, within the budget, then the verification
  -- succeeds, with a request for each attempt up to that one and no other.
  pub verify_registry-published :
      (k : ℕ) (published : RegistryVersion)
      → 1 ≤ k
      → k ≤ attempts
      → IsTransientBelow k
      → found k ≡ ok (some published)
      → verify_registry from_json replies candidate attempts retry_delay
        ≡ (ok tt, log_at retry_delay k)
  verify_registry-published k published low high below e =
      let (j, decided, result) = verify_registry-IsDecided (omega arith) in
      let same : j ≡ k = IsDecidedAt-unique j k decided (low, high, below, inr (rw e refl)) in
      result ∙ (rw (same, e) refl)
