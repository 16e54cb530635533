-- ===== src/Words.antt =====
-- Words: texts without white space, which the kernel's files are made of.
use sakai.Base.{
  ◌==◌, Bool-cases, is_empty, all, All, filter-All, ℕ, ◌≡◌, sym, ap, ◌∙◌, inl, inr, Bool, true,
  false, not, ◌&&◌, List, [], ◌∷◌, ◌++◌, append-nil, arith,
}
use sakai.Str.{Str, is_ascii_whitespace, is_whitespace, is_blank, filled_lines}
use sakai.Str.Blank.{is_blank-all, ascii_whitespace}
use sakai.Str.Lines.{IsLine, unlines, lines-unlines}
use sakai.Str.Tokens.{IsInk, IsToken}
use sakai.Num.{is_digit, print}
use sakai.Num.Value.{IsDigit}
use sakai.Num.Print.{print-All, print-cons}

abbrev pub IsSolid : ℕ → Type 0
IsSolid c = is_whitespace c ≡ false

abbrev pub IsWord : Str → Type 0
IsWord [] = ⊥
IsWord (c ∷ s) = IsSolid c × All IsSolid s

solid-IsInk : (c : ℕ) → IsSolid c → IsInk c
solid-IsInk c h = elim (Bool-cases (is_ascii_whitespace c)) [
  | inl ws ↦ cc (ascii_whitespace c ws)
  | inr ink ↦ ink
]

All-IsInk : (s : Str) → All IsSolid s → All IsInk s
All-IsInk [] h = tt
All-IsInk (c ∷ s) (hc, h) = (solid-IsInk c hc, All-IsInk s h)

pub IsWord-IsToken : (s : Str) → IsWord s → IsToken s
IsWord-IsToken [] h = h
IsWord-IsToken (c ∷ s) h = (solid-IsInk c h.0, All-IsInk s h.1)

solid_line : (c : ℕ) → IsSolid c → ((c == b'\n') ≡ false) × ((c == b'\r') ≡ false)
unfolding is_whitespace
solid_line c h = ground arith

All-IsLine : (s : Str) → All IsSolid s → IsLine s
All-IsLine [] h = tt
All-IsLine (c ∷ s) (hc, h) = (solid_line c hc, All-IsLine s h)

pub IsWord-IsLine : (s : Str) → IsWord s → IsLine s
IsWord-IsLine [] h = tt
IsWord-IsLine (c ∷ s) h = All-IsLine (c ∷ s) h

-- A line that begins with a word is not blank.
pub is_blank-append : (s rest : Str) → IsWord s → is_blank (s ++ rest) ≡ false
is_blank-append [] rest h = absurd h
is_blank-append (c ∷ s) rest h = is_blank-all (c ∷ (s ++ rest)) ∙ rw h.0

-- The lines that the parsers read of a text written line by line.
pub filled_lines-unlines :
    (ls : List Str)
    → All IsLine ls
    → All (λ l. is_blank l ≡ false) ls
    → filled_lines (unlines ls) ≡ ls
filled_lines-unlines ls h k =
    unfold filled_lines in rw (lines-unlines ls h) (filter-All _ ls (filled ls k))
  where
    filled :
        (ls : List Str) → All (λ l. is_blank l ≡ false) ls → All (λ l. not (is_blank l) ≡ true) ls
    filled [] k = tt
    filled (l ∷ ls) (kl, k) = (ap not kl, filled ls k)

digit-IsSolid : (c : ℕ) → is_digit c ≡ true → IsSolid c
unfolding is_digit is_whitespace
digit-IsSolid c h = ground arith

All-digit-IsSolid : (s : Str) → All IsDigit s → All IsSolid s
All-digit-IsSolid [] h = tt
All-digit-IsSolid (c ∷ s) (hc, h) = (digit-IsSolid c hc, All-digit-IsSolid s h)

-- A printed number is a word.
pub print-IsWord : (n : ℕ) → IsWord (print n)
print-IsWord n =
    let (c, s, e) = print-cons n in rw e (All-digit-IsSolid (c ∷ s) (rw e at (print-All n)))

-- To show that a given text is a word.
abbrev pub is_word : Str → Bool
is_word s = not (is_empty s) && all (λ c. not (is_whitespace c)) s

all-IsSolid : (s : Str) → all (λ c. not (is_whitespace c)) s ≡ true → All IsSolid s
all-IsSolid [] h = tt
all-IsSolid (c ∷ s) h = (ground arith, all-IsSolid s (ground arith))

pub is_word-IsWord : (s : Str) → is_word s ≡ true → IsWord s
is_word-IsWord [] h = cc
is_word-IsWord (c ∷ s) h = all-IsSolid (c ∷ s) h

pub word-filled : (s : Str) → IsWord s → is_blank s ≡ false
word-filled s h = ap is_blank (sym (append-nil s)) ∙ is_blank-append s [] h

pub word-All : (s : Str) → IsWord s → All IsSolid s
word-All [] h = tt
word-All (c ∷ s) h = h
