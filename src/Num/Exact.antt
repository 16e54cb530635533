-- ===== src/Num/Exact.antt =====
-- `str::parse` of an unsigned type, in both directions.
use sakai.Base.{
  ◌==◌, ==_iff, Bool-cases, All, ok, ℕ, ◌≤◌, ◌≡◌, refl, sym, ap, ◌∙◌, ◌≢◌, ◌↔◌, inl, inr, ◌||◌, [],
  ◌∷◌, arith,
}
use sakai.Num.{pos_overflow, parse_unsigned}
use sakai.Num.Print.{parse_unsigned-scan}
use sakai.Num.Value.{IsDigit, value, scan-ok, scan-fits}
use sakai.Str.{Str}

-- The text spells the number: one digit or more, behind at most one plus sign.
pub data Spells (s : Str) (n : ℕ) : Type 0 where
  plain : s ≢ [] → All IsDigit s → n ≡ value 0 s → Spells s n
  signed : (d : Str) → s ≡ b'+' ∷ d → d ≢ [] → All IsDigit d → n ≡ value 0 d → Spells s n

parse_unsigned-eq_ok :
    (limit : ℕ) (s : Str) (n : ℕ) → parse_unsigned limit s ≡ ok n → Spells s n × (n ≤ limit)
unfolding parse_unsigned
parse_unsigned-eq_ok limit [] n h = cc
parse_unsigned-eq_ok limit (c ∷ []) n h = elim (Bool-cases (c == b'+' || c == b'-')) [
  | inl sign ↦ cc (rw sign at h)
  | inr digit ↦
      let (all_digits, exact, fits) = scan-ok limit pos_overflow (c ∷ []) n (rw digit at h) in
      (plain (cc) all_digits exact, fits)
]
parse_unsigned-eq_ok limit (c ∷ d ∷ s) n h = elim (Bool-cases (c == b'+')) [
  | inl sign ↦
      let (all_digits, exact, fits) = scan-ok limit pos_overflow (d ∷ s) n (rw sign at h) in
      (signed (d ∷ s) (ap (λ x. x ∷ d ∷ s) ((==_iff c b'+').0 sign)) (cc) all_digits exact, fits)
  | inr digit ↦
      let (all_digits, exact, fits) = scan-ok limit pos_overflow (c ∷ d ∷ s) n (rw digit at h) in
      (plain (cc) all_digits exact, fits)
]

parse_unsigned-Spells :
    (limit : ℕ) (s : Str) (n : ℕ) → Spells s n → n ≤ limit → parse_unsigned limit s ≡ ok n
parse_unsigned-Spells limit [] n (plain ne ds e) fits = absurd (ne refl)
parse_unsigned-Spells limit (c ∷ s) n (plain ne ds e) fits =
    parse_unsigned-scan limit c s ds.0
    ∙ scan-fits limit pos_overflow (c ∷ s) ds (omega arith)
    ∙ ap ok (sym e)
parse_unsigned-Spells limit s n (signed [] p ne ds e) fits = absurd (ne refl)
parse_unsigned-Spells limit s n (signed (d ∷ ds') p ne ds e) fits = rw p (
    unfold parse_unsigned in
    scan-fits limit pos_overflow (d ∷ ds') ds (omega arith) ∙ ap ok (sym e))

-- A text is accepted with a number just when it spells the number (one digit or more, behind at most
-- one plus sign) and the number fits in the type: an overflow is never wrapped around, and nothing
-- that fits is refused.
pub parse_unsigned_iff :
    (limit : ℕ) (s : Str) (n : ℕ) → (parse_unsigned limit s ≡ ok n) ↔ (Spells s n × (n ≤ limit))
parse_unsigned_iff limit s n =
    (parse_unsigned-eq_ok limit s n, λ h. parse_unsigned-Spells limit s n h.0 h.1)
