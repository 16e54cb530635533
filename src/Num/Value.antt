-- ===== src/Num/Value.antt =====
-- What the integer parsers accept: the number that a text of digits spells, and the errors.
use sakai.Base.{
  ltb, leb, if◌then◌else◌, Bool-cases, All, ok, err, ℕ, ◌+◌, ◌-◌, ◌*◌, ◌≤◌, ◌<◌, ◌≡◌, inl, inr,
  true, [], ◌∷◌, arith,
}
use sakai.Str.{Str}
use sakai.Num.{IntErrorKind, is_digit, scan}

abbrev pub IsDigit : ℕ → Type 0
IsDigit c = is_digit c ≡ true

-- The number that digits spell behind `n`, with no bound.
abbrev pub value : ℕ → Str → ℕ
value n [] = n
value n (c ∷ s) = value (n * 10 + (c - b'0')) s

value-above : (s : Str) (n limit : ℕ) → limit < n → limit < value n s
value-above [] n limit h = h
value-above (c ∷ s) n limit h = value-above s (n * 10 + (c - b'0')) limit (omega arith)

module _ (limit : ℕ) (overflow : IntErrorKind) where
  -- The loop on digits alone returns what they spell, or the overflow.
  pub scan-value :
      (s : Str)
      → All IsDigit s
      → (n : ℕ) → n ≤ limit
      → scan limit overflow s n ≡ (if leb (value n s) limit then ok (value n s) else err overflow)
  unfolding scan
  scan-value [] h n fits = ground arith
  scan-value (c ∷ s) (hc, h) n fits = elim (Bool-cases (ltb limit (n * 10 + (c - b'0')))) [
    | inl over ↦ ground (arith, value-above s (n * 10 + (c - b'0')) limit)
    | inr within ↦ rw (hc, within) (scan-value s h (n * 10 + (c - b'0')) (ground arith))
  ]

  -- What the loop accepts is digits.
  pub scan-All : (s : Str) {r : ℕ} (n : ℕ) → scan limit overflow s n ≡ ok r → All IsDigit s
  unfolding scan
  scan-All [] n accepted = tt
  scan-All (c ∷ s) {r} n accepted = ground (arith, scan-All s {r = r} (n * 10 + (c - b'0')))

  -- Both, on a run of the loop from zero.
  pub scan-ok :
      (s : Str) (r : ℕ)
      → scan limit overflow s 0 ≡ ok r
      → All IsDigit s × (r ≡ value 0 s) × (r ≤ limit)
  scan-ok s r accepted =
      let spelt = scan-All s 0 accepted in
      let bounded : (r ≡ value 0 s) × (r ≤ limit) =
        ground (arith, scan-value s spelt 0 (omega arith)) in
      (spelt, bounded.0, bounded.1)

  pub scan-fits :
      (s : Str) → All IsDigit s → value 0 s ≤ limit → scan limit overflow s 0 ≡ ok (value 0 s)
  scan-fits s spelt fits = ground (arith, scan-value s spelt 0 (omega arith))
