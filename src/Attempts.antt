-- ===== src/Attempts.antt =====
-- `for attempt in 1..=attempts { … }` with an early return, as in xtask/src/release.rs and
-- xtask/src/vmtest/kernel.rs: the body ends the function or goes on to the next attempt.
use sakai.Base.{ℕ, zero, suc, ◌+◌, ◌≤◌, ◌<◌, ◌≡◌, refl, subst, ◌⊎◌, inl, inr, arith}

pub data Flow (S A : Type 0) : Type 0 where
  return : A → S → Flow S A
  continue : S → Flow S A

module _ {S A : Type 0} (body : ℕ → S → Flow S A) (end : A) where
  -- The attempts that are left, from the number of the next one.
  unfoldable pub for_attempts : ℕ → ℕ → S → A × S
  for_attempts zero attempt s = (end, s)
  for_attempts (suc left) attempt s = elim (body attempt s) [
    | return a s' ↦ (a, s')
    | continue s' ↦ for_attempts left (suc attempt) s'
  ]

module _ {S A : Type 0} (body : ℕ → S → Flow S A) where
  -- Every attempt from one number to another, the last left out, goes on to the next.
  pub data Continues : ℕ → S → ℕ → S → Type 0 where
    here : {n : ℕ} {s : S} → Continues n s n s
    next :
        {n m : ℕ} {s s' t : S}
        → body n s ≡ continue s'
        → Continues (suc n) s' m t
        → Continues n s m t

  -- Where the loop ends: at an attempt that returns, or behind the last one.
  abbrev pub Ends : A → ℕ → ℕ → S → A × S → Type 0
  Ends end left first s (a, t) =
      ((k : ℕ) × (u : S) × (first ≤ k)
        × (k < first + left)
        × Continues first s k u
        × (body k u ≡ return a t))
      ⊎ (Continues first s (first + left) t × (a ≡ end))

  Flow-cases :
      (f : Flow S A) → ((a : A) × (t : S) × (f ≡ return a t)) ⊎ ((t : S) × (f ≡ continue t))
  Flow-cases (return a t) = inl (a, t, refl)
  Flow-cases (continue t) = inr (t, refl)

  -- One more attempt in front.
  Ends-continue :
      (end : A) (left first : ℕ) (s s' : S) (result : A × S)
      → body first s ≡ continue s'
      → Ends end left (suc first) s' result
      → Ends end (suc left) first s result
  Ends-continue end left first s s' (a, t) e (inl (k, u, low, high, c, r)) =
      inl (k, u, omega arith, omega arith, next e c, r)
  Ends-continue end left first s s' (a, t) e (inr (c, last)) =
      let m : suc first + left ≡ first + suc left = omega arith in inr (rw m at (next e c), last)

  Continues-le : {n m : ℕ} {s t : S} → Continues n s m t → n ≤ m
  Continues-le here = omega arith
  Continues-le (next e c) = omega (arith, Continues-le c)

  -- The loop ends at an attempt that returns, or behind the last one.
  pub for_attempts-Ends :
      (end : A) (left first : ℕ) (s : S)
      → Ends end left first s (for_attempts body end left first s)
  unfolding for_attempts
  for_attempts-Ends end zero first s =
      let none_left : Continues first s first s = here in
      inr (subst (λ m. Continues first s m s) (omega arith) none_left, refl)
  for_attempts-Ends end (suc left) first s = elim (Flow-cases (body first s)) [
    | inl (a, t, e) ↦ rw (e, for_attempts) (inl (first, s, omega arith, omega arith, here, e))
    | inr (s', e) ↦
        rw (e, for_attempts)
          (Ends-continue end left first s s' _ e (for_attempts-Ends end left (suc first) s'))
  ]

  -- Up to an attempt that returns, every attempt goes on.
  pub for_attempts-return :
      (end : A) {k : ℕ} {u : S} (left : ℕ) {first : ℕ} {s t : S} {a : A}
      → Continues first s k u
      → k < first + left
      → body k u ≡ return a t
      → for_attempts body end left first s ≡ (a, t)
  unfolding for_attempts
  for_attempts-return end zero c h e = absurd (omega (arith, Continues-le c))
  for_attempts-return end (suc left) here h e = rw (e, for_attempts) refl
  for_attempts-return end (suc left) (next e' c) h e =
      rw (e', for_attempts) (for_attempts-return end left c (omega arith) e)
