-- ===== src/Cpuset/IdList/RoundTrip.antt =====
-- Printing a list and parsing it back.
use sakai.Base.{
  ◌==◌, if◌then◌else◌, ==_iff, Bool-cases, is_empty, all, All, All-append, ok, collect, ℕ, ◌≤◌, ◌≡◌,
  refl, ap, ◌∙◌, inl, inr, true, false, List, [], ◌∷◌, ◌++◌, map, arith,
}
use sakai.Str.Once.{split_once-append, split_once-none}
use sakai.Str.Trim.{trim_solid}
use sakai.Str.Tokens.{split-append, split_self}
use sakai.Num.{is_digit, u32_max, print}
use sakai.Num.Value.{IsDigit}
use sakai.Num.Print.{print-All, print-cons, parse_unsigned-print}
use sakai.Str.{Str, is_whitespace, split}
use sakai.Cpuset.IdList.{IdRange, id_number, id_range, is_ascending, ranges_of, list_of, parse_ids}
use sakai.Cpuset.IdList.Sound.{IsRange}

-- One range as the kernel prints it: a single id alone, and otherwise both ends.
abbrev pub show_range : IdRange → Str
show_range r = if r.start == r.last then print r.start else print r.start ++ b'-' ∷ print r.last

abbrev pub show_ranges : List IdRange → Str
show_ranges [] = []
show_ranges (r ∷ []) = show_range r
show_ranges (r ∷ s ∷ rs) = show_range r ++ b',' ∷ show_ranges (s ∷ rs)

abbrev pub show_ids : List IdRange → Str
show_ids rs = show_ranges rs ++ b'\n' ∷ []

-- Digits and dashes.
abbrev IsIdChar : ℕ → Type 0
IsIdChar c = ((c == b',') ≡ false) × (is_whitespace c ≡ false)

digit-IsIdChar : (c : ℕ) → IsDigit c → IsIdChar c
unfolding is_digit is_whitespace
digit-IsIdChar c h = ground arith

dash-IsIdChar : IsIdChar b'-'
unfolding is_whitespace
dash-IsIdChar = (refl, refl)

All-imp {ℓ} :
    {A : Type ℓ} {P Q : A → Type 0} → ((a : A) → P a → Q a) → (xs : List A) → All P xs → All Q xs
All-imp f [] h = tt
All-imp f (x ∷ xs) (hx, h) = (f x hx, All-imp f xs h)

print-IsIdChar : (n : ℕ) → All IsIdChar (print n)
print-IsIdChar n = All-imp digit-IsIdChar (print n) (print-All n)

show_range-IsIdChar : (r : IdRange) → All IsIdChar (show_range r)
show_range-IsIdChar r = elim (Bool-cases (r.start == r.last)) [
  | inl one ↦ rw one (print-IsIdChar r.start)
  | inr two ↦ rw two (
      All-append IsIdChar (print r.start) (b'-' ∷ print r.last) (print-IsIdChar r.start)
        (dash-IsIdChar, print-IsIdChar r.last))
]

digit-dash : (c : ℕ) → IsDigit c → (c == b'-') ≡ false
unfolding is_digit
digit-dash c h = ground arith

all-digits : (s : Str) → All IsDigit s → all is_digit s ≡ true
all-digits [] h = refl
all-digits (c ∷ s) (hc, h) = rw (hc, all-digits s h)

module _ (raw field part : Str) where
  id_number-print : (n : ℕ) → n ≤ u32_max → id_number raw field part (print n) ≡ ok n
  unfolding id_number
  id_number-print n fits =
      let (c, s, e) = print-cons n in
      rw (all-digits (print n) (print-All n), parse_unsigned-print u32_max n fits) (rw e refl)

show_range-id_range :
    (raw field : Str) (r : IdRange) → IsRange r → id_range raw field (show_range r) ≡ ok r
unfolding id_range
show_range-id_range raw field r h = elim (Bool-cases (r.start == r.last)) [
  | inl one ↦
      let same = (==_iff r.start r.last).0 one in
      rw one (
        rw
          (split_once-none b'-' (print r.start)
            (All-imp digit-dash (print r.start) (print-All r.start)))
          (rw (id_number-print raw field (print r.start) r.start (omega arith)) (ground arith)))
  | inr two ↦
      let part = print r.start ++ b'-' ∷ print r.last in
      rw two (
        rw
          (split_once-append b'-' (print r.start) (print r.last)
            (All-imp digit-dash (print r.start) (print-All r.start)) refl)
          (rw
            (
              id_number-print raw field part r.start (omega arith),
              id_number-print raw field part r.last (omega arith),
            )
            (ground arith)))
]

no_comma : (s : Str) → All IsIdChar s → All (λ c. (c == b',') ≡ false) s
no_comma s h = All-imp (λ c (k : IsIdChar c). k.0) s h

split-show_ranges :
    (r : IdRange) (rs : List IdRange)
    → split (λ c. c == b',') (show_ranges (r ∷ rs)) ≡ map show_range (r ∷ rs)
split-show_ranges r [] =
    split_self (λ c. c == b',') (show_range r) (no_comma (show_range r) (show_range-IsIdChar r))
split-show_ranges r (s ∷ rs) =
    split-append (λ c. c == b',') (show_range r) b',' (show_ranges (s ∷ rs))
      (no_comma (show_range r) (show_range-IsIdChar r)) refl
    ∙ ap (◌∷◌ (show_range r)) (split-show_ranges s rs)

collect-show_range :
    (raw field : Str) (rs : List IdRange)
    → All IsRange rs
    → collect (map (id_range raw field) (map show_range rs)) ≡ ok rs
collect-show_range raw field [] h = refl
collect-show_range raw field (r ∷ rs) (hr, h) =
    rw (show_range-id_range raw field r hr, collect-show_range raw field rs h)

comma_solid : is_whitespace b',' ≡ false
unfolding is_whitespace
comma_solid = refl

show_ranges-All : (rs : List IdRange) → All (λ c. is_whitespace c ≡ false) (show_ranges rs)
show_ranges-All [] = tt
show_ranges-All (r ∷ []) =
    All-imp (λ c (k : IsIdChar c). k.1) (show_range r) (show_range-IsIdChar r)
show_ranges-All (r ∷ s ∷ rs) =
    All-append _ (show_range r) (b',' ∷ show_ranges (s ∷ rs))
      (All-imp (λ c (k : IsIdChar c). k.1) (show_range r) (show_range-IsIdChar r))
      (comma_solid, show_ranges-All (s ∷ rs))

IsFilled : Str → Type 0
IsFilled s = is_empty s ≡ false

append-IsFilled : (s t : Str) → is_empty s ≡ false → is_empty (s ++ t) ≡ false
append-IsFilled [] t h = cc
append-IsFilled (c ∷ s) t h = refl

print-filled : (n : ℕ) → is_empty (print n) ≡ false
print-filled n = let (c, s, e) = print-cons n in rw e

show_range-filled : (r : IdRange) → is_empty (show_range r) ≡ false
show_range-filled r = elim (Bool-cases (r.start == r.last)) [
  | inl one ↦ rw one (print-filled r.start)
  | inr two ↦ rw two (append-IsFilled (print r.start) _ (print-filled r.start))
]

show_ranges-filled : (r : IdRange) (rs : List IdRange) → is_empty (show_ranges (r ∷ rs)) ≡ false
show_ranges-filled r [] = show_range-filled r
show_ranges-filled r (s ∷ rs) = append-IsFilled (show_range r) _ (show_range-filled r)

ranges_of-show_ranges :
    (raw field : Str) (rs : List IdRange)
    → All IsRange rs
    → ranges_of raw field (show_ranges rs) ≡ ok rs
ranges_of-show_ranges raw field [] h = unfold ranges_of in refl
ranges_of-show_ranges raw field (r ∷ rs) h =
    unfold ranges_of in
    rw (show_ranges-filled r rs, split-show_ranges r rs) (collect-show_range raw field (r ∷ rs) h)

-- A list as the kernel prints it, with commas between the ranges and a line feed behind, is read back as
-- it was, for every list of ascending ranges of 32 bits, the empty one included.
pub parse_ids-show_ids :
    (field : Str) (rs : List IdRange)
    → All IsRange rs
    → is_ascending rs ≡ true
    → parse_ids (show_ids rs) field ≡ ok (record { ranges = rs })
parse_ids-show_ids field rs h ascending =
    unfold parse_ids list_of in
    rw (
      trim_solid (show_ranges rs) (show_ranges-All rs),
      ranges_of-show_ranges (show_ids rs) field rs h,
      ascending,
    )
