-- ===== src/Str/Blank.antt =====
-- Which lines the parsers skip: those of white space alone. Every other line has a token.
use sakai.Base.{
  Bool-cases, is_empty, filter, all, ℕ, ◌≡◌, refl, ◌∙◌, ◌≢◌, inl, inr, Bool, true, false, not, ◌&&◌,
  List, [], ◌∷◌, ◌++◌, reverse, reverse-cons, arith,
}
use sakai.Str.{
  Str, is_ascii_whitespace, is_whitespace, cons_head, split, split_ascii_whitespace, trim_start,
  trim, is_blank,
}
use sakai.Str.Tokens.{split_ascii_whitespace-skip}

all-append {ℓ} :
    {A : Type ℓ} (p : A → Bool) (xs ys : List A) → all p (xs ++ ys) ≡ (all p xs && all p ys)
all-append p [] ys = refl
all-append p (x ∷ xs) ys = ground (arith, all-append p xs ys)

all-reverse {ℓ} : {A : Type ℓ} (p : A → Bool) (xs : List A) → all p (reverse xs) ≡ all p xs
all-reverse p [] = refl
all-reverse p (x ∷ xs) =
    rw (reverse-cons x xs, all-append p (reverse xs) (x ∷ [])) (ground (arith, all-reverse p xs))

is_empty-reverse {ℓ} : {A : Type ℓ} (xs : List A) → is_empty (reverse xs) ≡ is_empty xs
is_empty-reverse [] = refl
is_empty-reverse {A} (x ∷ xs) = rw reverse-cons (last (reverse xs))
  where
    last : (ys : List A) → is_empty (ys ++ x ∷ []) ≡ false
    last [] = refl
    last (y ∷ ys) = refl

is_empty-trim_start : (s : Str) → is_empty (trim_start s) ≡ all is_whitespace s
unfolding trim_start
is_empty-trim_start [] = refl
is_empty-trim_start (c ∷ s) = ground (arith, is_empty-trim_start s)

all-trim_start : (s : Str) → all is_whitespace (trim_start s) ≡ all is_whitespace s
unfolding trim_start
all-trim_start [] = refl
all-trim_start (c ∷ s) = ground (arith, all-trim_start s)

-- A line is blank just when all of it is white space.
pub is_blank-all : (s : Str) → is_blank s ≡ all is_whitespace s
unfolding is_blank trim
is_blank-all s =
    is_empty-reverse (trim_start (reverse (trim_start s)))
    ∙ is_empty-trim_start (reverse (trim_start s))
    ∙ all-reverse is_whitespace (trim_start s)
    ∙ all-trim_start s

-- ASCII whitespace is white space.
pub ascii_whitespace : (c : ℕ) → is_ascii_whitespace c ≡ true → is_whitespace c ≡ true
unfolding is_ascii_whitespace is_whitespace
ascii_whitespace c h = ground arith

cons_head-filter : (c : ℕ) (ls : List Str) → filter (λ t. not (is_empty t)) (cons_head c ls) ≢ []
cons_head-filter c [] e = cc
cons_head-filter c (l ∷ ls) e = cc

-- A line that is not blank has at least one token.
pub tokens-ne-nil : (s : Str) → is_blank s ≡ false → split_ascii_whitespace s ≢ []
tokens-ne-nil s h = go s (rw is_blank-all at h)
  where
    go : (s : Str) → all is_whitespace s ≡ false → split_ascii_whitespace s ≢ []
    go [] k = cc
    go (c ∷ s) k = elim (Bool-cases (is_ascii_whitespace c)) [
      | inl ws ↦
          rw (split_ascii_whitespace-skip c s ws) (go s (ground (arith, ascii_whitespace c ws)))
      | inr ink ↦ unfold split_ascii_whitespace split in rw ink (cons_head-filter c _)
    ]
