-- ===== src/Str/Equal.antt =====
-- The comparison of texts decides their equality.
use sakai.Base.{◌≡◌, refl, ◌↔◌, true, [], ◌∷◌, arith}
use sakai.Str.{Str, str_eq}

pub str_eq_iff : (s t : Str) → (str_eq s t ≡ true) ↔ (s ≡ t)
unfolding str_eq
str_eq_iff [] [] = ground arith
str_eq_iff [] (d ∷ t) = ground arith
str_eq_iff (c ∷ s) [] = ground arith
str_eq_iff (c ∷ s) (d ∷ t) = ground (arith, str_eq_iff s t)

pub str_eq_refl : (s : Str) → str_eq s s ≡ true
str_eq_refl s = (str_eq_iff s s).1 refl
