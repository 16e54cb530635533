-- ===== src/Str/Trim.antt =====
-- Trimming a line that begins and ends in something else than white space.
use sakai.Base.{
  All, All-reverse, ℕ, ◌≡◌, refl, true, false, [], ◌∷◌, ◌++◌, reverse, reverse-append,
  reverse-reverse,
}
use sakai.Str.{Str, is_whitespace, trim_start, trim}

abbrev pub SolidHead : Str → Type 0
SolidHead [] = Unit
SolidHead (c ∷ s) = is_whitespace c ≡ false

trim_start-solid : (s : Str) → SolidHead s → trim_start s ≡ s
unfolding trim_start
trim_start-solid [] h = refl
trim_start-solid (c ∷ s) h = rw h

trim_start-skip : (c : ℕ) (s : Str) → is_whitespace c ≡ true → trim_start (c ∷ s) ≡ trim_start s
unfolding trim_start
trim_start-skip c s h = rw h

newline_white : is_whitespace b'\n' ≡ true
unfolding is_whitespace
newline_white = refl

trim_start-line :
    (s : Str)
    → SolidHead s
    → trim_start (reverse (trim_start (s ++ b'\n' ∷ []))) ≡ trim_start (reverse s)
trim_start-line [] h = unfold trim_start in rw newline_white
trim_start-line (c ∷ s) h =
    rw (trim_start-solid (c ∷ (s ++ b'\n' ∷ [])) h, reverse-append (c ∷ s) (b'\n' ∷ []))
      (trim_start-skip b'\n' (reverse (c ∷ s)) newline_white)

-- The line feed goes, and nothing else.
pub trim-line : (s : Str) → SolidHead s → SolidHead (reverse s) → trim (s ++ b'\n' ∷ []) ≡ s
trim-line s h k =
    unfold trim in
    rw (trim_start-line s h) (rw (trim_start-solid (reverse s) k) (reverse-reverse s))

All-SolidHead : (s : Str) → All (λ c. is_whitespace c ≡ false) s → SolidHead s
All-SolidHead [] h = tt
All-SolidHead (c ∷ s) h = h.0

-- A text without white space, at the end of a line.
pub trim_solid : (s : Str) → All (λ c. is_whitespace c ≡ false) s → trim (s ++ b'\n' ∷ []) ≡ s
trim_solid s h = trim-line s (All-SolidHead s h) (All-SolidHead (reverse s) (All-reverse _ s h))

-- A text without white space is not changed.
pub trim_same : (s : Str) → All (λ c. is_whitespace c ≡ false) s → trim s ≡ s
trim_same s h =
    unfold trim in
    rw (trim_start-solid s (All-SolidHead s h)) (
      rw (trim_start-solid (reverse s) (All-SolidHead (reverse s) (All-reverse _ s h)))
        (reverse-reverse s))
