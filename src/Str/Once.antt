-- ===== src/Str/Once.antt =====
-- `split_once` at a character that the first part does not hold.
use sakai.Base.{◌==◌, All, ℕ, ◌≡◌, refl, true, false, none, some, [], ◌∷◌, ◌++◌}
use sakai.Str.{Str, split_once}

pub split_once-append :
    (p : ℕ) (t rest : Str)
    → All (λ c. (c == p) ≡ false) t
    → (p == p) ≡ true
    → split_once p (t ++ p ∷ rest) ≡ some (t, rest)
unfolding split_once
split_once-append p [] rest h k = rw k
split_once-append p (c ∷ t) rest (hc, h) k = rw (hc, split_once-append p t rest h k)

pub split_once-none : (p : ℕ) (t : Str) → All (λ c. (c == p) ≡ false) t → split_once p t ≡ none
unfolding split_once
split_once-none p [] h = refl
split_once-none p (c ∷ t) (hc, h) = rw (hc, split_once-none p t h)
