-- ===== src/Num/Print.antt =====
-- Printing a number and parsing it back.
use sakai.Base.{
  ltb, Bool-cases, All, ok, map_ok, ℕ, zero, suc, ◌+◌, ◌/◌, ◌%◌, ◌≤◌, ◌<◌, ◌≡◌, refl, ◌∙◌, inl, inr,
  [], ◌∷◌, arith,
}
use sakai.Str.{Str}
use sakai.Num.{
  IntErrorKind, pos_overflow, pos, is_digit, scan, parse_unsigned, parse_signed, emit, print,
}
use sakai.Num.Value.{IsDigit}

emit-All : (f n : ℕ) (out : Str) → n < f → All IsDigit out → All IsDigit (emit f n out)
unfolding emit is_digit
emit-All zero n out h k = absurd (omega arith)
emit-All (suc f) n out h k = elim (Bool-cases (ltb n 10)) [
  | inl small ↦ rw (small, emit) (ground arith, k)
  | inr big ↦ rw (big, emit) (emit-All f (n / 10) _ (ground arith) (ground arith, k))
]

-- Every character of a printed number is a digit.
pub print-All : (n : ℕ) → All IsDigit (print n)
unfolding print
print-All n = emit-All (n + 1) n [] (omega arith) tt

emit-cons : (f n : ℕ) (out : Str) → n < f → (c : ℕ) × (s : Str) × (emit f n out ≡ c ∷ s)
unfolding emit
emit-cons zero n out h = absurd (omega arith)
emit-cons (suc f) n out h = elim (Bool-cases (ltb n 10)) [
  | inl small ↦ (b'0' + n, out, rw (small, emit))
  | inr big ↦ rw (big, emit) (emit-cons f (n / 10) ((b'0' + n % 10) ∷ out) (ground arith))
]

-- A printed number is not empty.
pub print-cons : (n : ℕ) → (c : ℕ) × (s : Str) × (print n ≡ c ∷ s)
unfolding print
print-cons n = emit-cons (n + 1) n [] (omega arith)

module _ (limit : ℕ) (overflow : IntErrorKind) where
  scan-emit :
      (f n : ℕ) (out : Str)
      → n < f
      → n ≤ limit
      → scan limit overflow (emit f n out) 0 ≡ scan limit overflow out n
  unfolding scan emit
  scan-emit zero n out h fits = absurd (omega arith)
  scan-emit (suc f) n out h fits = elim (Bool-cases (ltb n 10)) [
    | inl small ↦ rw (small, emit) (ground arith)
    | inr big ↦ rw (big, emit) (scan-emit f (n / 10) _ (ground arith) (ground arith) ∙ ground arith)
  ]

  pub scan-print : (n : ℕ) → n ≤ limit → scan limit overflow (print n) 0 ≡ ok n
  unfolding print scan
  scan-print n fits = scan-emit (n + 1) n [] (omega arith) fits

-- A text of digits is read by the loop alone: it has no sign.
pub parse_unsigned-scan :
    (limit c : ℕ) (s : Str)
    → IsDigit c
    → parse_unsigned limit (c ∷ s) ≡ scan limit pos_overflow (c ∷ s) 0
unfolding parse_unsigned
parse_unsigned-scan limit c [] h = ground arith
parse_unsigned-scan limit c (d ∷ s) h = ground arith

pub parse_unsigned-print : (limit n : ℕ) → n ≤ limit → parse_unsigned limit (print n) ≡ ok n
parse_unsigned-print limit n fits =
    let (c, s, e) = print-cons n in
    rw e (
      parse_unsigned-scan limit c s ((rw e at (print-All n)).0)
      ∙ (rw e at (scan-print limit pos_overflow n fits)))

pub parse_signed-scan :
    (limit c : ℕ) (s : Str)
    → IsDigit c
    → parse_signed limit (c ∷ s) ≡ map_ok pos (scan limit pos_overflow (c ∷ s) 0)
unfolding parse_signed
parse_signed-scan limit c [] h = ground arith
parse_signed-scan limit c (d ∷ s) h = ground arith

pub parse_signed-print : (limit n : ℕ) → n ≤ limit → parse_signed limit (print n) ≡ ok (pos n)
parse_signed-print limit n fits =
    let (c, s, e) = print-cons n in
    rw e (
      parse_signed-scan limit c s ((rw e at (print-All n)).0)
      ∙ (rw (rw e at (scan-print limit pos_overflow n fits)) refl))
