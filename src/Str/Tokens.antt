-- ===== src/Str/Tokens.antt =====
-- Splitting at ASCII whitespace: the tokens of a text that is written as tokens with whitespace
-- behind them, and what every token looks like.
use sakai.Base.{
  Bool-cases, is_empty, filter, All, ℕ, ◌≡◌, refl, inl, inr, Bool, true, false, not, List, [], ◌∷◌,
  ◌++◌,
}
use sakai.Str.{Str, is_ascii_whitespace, cons_head, split, split_ascii_whitespace}

-- A character that belongs to a token.
abbrev pub IsInk : ℕ → Type 0
IsInk c = is_ascii_whitespace c ≡ false

-- What `split_ascii_whitespace` returns: not empty, and without ASCII whitespace.
abbrev pub IsToken : Str → Type 0
IsToken [] = ⊥
IsToken (c ∷ s) = IsInk c × All IsInk s

pub split-append :
    (p : ℕ → Bool) (t : Str) (c : ℕ) (rest : Str)
    → All (λ d. p d ≡ false) t
    → p c ≡ true
    → split p (t ++ c ∷ rest) ≡ t ∷ split p rest
unfolding split
split-append p [] c rest h k = rw k
split-append p (d ∷ t) c rest (hd, h) k = rw (split-append p t c rest h k, hd)

pub split_self : (p : ℕ → Bool) (t : Str) → All (λ d. p d ≡ false) t → split p t ≡ t ∷ []
unfolding split
split_self p [] h = refl
split_self p (d ∷ t) (hd, h) = rw (split_self p t h, hd)

-- A token and the whitespace behind it are taken off the front.
pub split_ascii_whitespace-append :
    (t : Str) (c : ℕ) (rest : Str)
    → IsToken t
    → is_ascii_whitespace c ≡ true
    → split_ascii_whitespace (t ++ c ∷ rest) ≡ t ∷ split_ascii_whitespace rest
unfolding split_ascii_whitespace
split_ascii_whitespace-append [] c rest h k = absurd h
split_ascii_whitespace-append (d ∷ t) c rest h k =
    rw (split-append is_ascii_whitespace (d ∷ t) c rest h k)

-- A token at the end of the text.
pub split_ascii_whitespace_self : (t : Str) → IsToken t → split_ascii_whitespace t ≡ t ∷ []
unfolding split_ascii_whitespace
split_ascii_whitespace_self [] h = absurd h
split_ascii_whitespace_self (d ∷ t) h = rw (split_self is_ascii_whitespace (d ∷ t) h)

-- Leading whitespace is skipped.
pub split_ascii_whitespace-skip :
    (c : ℕ) (rest : Str)
    → is_ascii_whitespace c ≡ true
    → split_ascii_whitespace (c ∷ rest) ≡ split_ascii_whitespace rest
unfolding split_ascii_whitespace
split_ascii_whitespace-skip c rest k = rw (k, split)

abbrev IsPart : Str → Type 0
IsPart = All IsInk

cons_head-All : (c : ℕ) (ls : List Str) → IsInk c → All IsPart ls → All IsPart (cons_head c ls)
cons_head-All c [] h k = ((h, tt), tt)
cons_head-All c (l ∷ ls) h k = ((h, k.0), k.1)

split-All : (s : Str) → All IsPart (split is_ascii_whitespace s)
unfolding split
split-All [] = (tt, tt)
split-All (c ∷ s) = elim (Bool-cases (is_ascii_whitespace c)) [
  | inl ws ↦ rw ws (tt, split-All s)
  | inr ink ↦ rw ink (cons_head-All c _ ink (split-All s))
]

filter-IsToken : (ls : List Str) → All IsPart ls → All IsToken (filter (λ t. not (is_empty t)) ls)
filter-IsToken [] h = tt
filter-IsToken ([] ∷ ls) h = filter-IsToken ls h.1
filter-IsToken ((c ∷ l) ∷ ls) h = (h.0, filter-IsToken ls h.1)

-- No token is empty, and none holds ASCII whitespace.
pub split_ascii_whitespace-All : (s : Str) → All IsToken (split_ascii_whitespace s)
unfolding split_ascii_whitespace
split_ascii_whitespace-All s = filter-IsToken (split is_ascii_whitespace s) (split-All s)
