-- ===== src/Str/Lines.antt =====
-- The lines of a text that is written as lines with a line feed behind each.
use sakai.Base.{
  ◌==◌, All, All-reverse, ◌≡◌, refl, false, none, some, List, [], ◌∷◌, ◌++◌, reverse,
  reverse-append, reverse-reverse, arith,
}
use sakai.Str.{Str, split_inclusive, strip_prefix, strip_suffix, chomp, lines}

-- A line that `lines` gives back as it was written: no line feed and no carriage return.
abbrev pub IsLine : Str → Type 0
IsLine = All (λ c. ((c == b'\n') ≡ false) × ((c == b'\r') ≡ false))

split_inclusive-append :
    (l rest : Str)
    → IsLine l
    → split_inclusive (l ++ b'\n' ∷ rest) ≡ (l ++ b'\n' ∷ []) ∷ split_inclusive rest
unfolding split_inclusive
split_inclusive-append [] rest h = refl
split_inclusive-append (c ∷ l) rest (hc, h) = rw (split_inclusive-append l rest h, hc.0)

strip_first : (r : Str) → IsLine r → strip_prefix (b'\r' ∷ []) r ≡ none
unfolding strip_prefix
strip_first [] h = refl
strip_first (c ∷ r) h = ground arith

strip_suffix-cr : (l : Str) → IsLine l → strip_suffix (b'\r' ∷ []) l ≡ none
unfolding strip_suffix
strip_suffix-cr l h = rw (strip_first (reverse l) (All-reverse _ l h))

strip_suffix-nl : (l : Str) → strip_suffix (b'\n' ∷ []) (l ++ b'\n' ∷ []) ≡ some l
unfolding strip_suffix
strip_suffix-nl l = rw (reverse-append l (b'\n' ∷ []), reverse-reverse)

chomp-append : (l : Str) → IsLine l → chomp (l ++ b'\n' ∷ []) ≡ l
chomp-append l h = unfold chomp in rw (strip_suffix-nl l) (rw (strip_suffix-cr l h))

-- A line and the line feed behind it are taken off the front.
pub lines-append : (l rest : Str) → IsLine l → lines (l ++ b'\n' ∷ rest) ≡ l ∷ lines rest
unfolding lines
lines-append l rest h = rw (split_inclusive-append l rest h, chomp-append l h)

-- A list of lines, each with a line feed behind it.
unfoldable pub unlines : List Str → Str
unlines [] = []
unlines (l ∷ ls) = l ++ b'\n' ∷ unlines ls

pub lines-unlines : (ls : List Str) → All IsLine ls → lines (unlines ls) ≡ ls
unfolding unlines
lines-unlines [] h = unfold lines split_inclusive in refl
lines-unlines (l ∷ ls) (hl, h) = rw (lines-append l (unlines ls) hl, lines-unlines ls h)
