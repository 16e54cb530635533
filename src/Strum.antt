-- ===== src/Strum.antt =====
-- The conversions that `strum` derives from the names of an enum's variants: `EnumString` is the
-- first variant with the name, compared exactly.
use sakai.Base.{if◌then◌else◌, ◌≡◌, Option, none, some, List, [], ◌∷◌, arith}
use sakai.Str.Equal.{str_eq_iff}
use sakai.Str.{Str, str_eq}

module _ {ℓ} {A : Type ℓ} (name : A → Str) where
  unfoldable pub from_name : List A → Str → Option A
  unfolding str_eq
  from_name [] text = none
  from_name (x ∷ xs) text =
      let rest = from_name xs text in if str_eq (name x) text then some x else rest

  -- What is found has the name that was asked for.
  pub name-from_name :
      (xs : List A) (text : Str) {x : A} → from_name xs text ≡ some x → name x ≡ text
  unfolding from_name
  name-from_name [] text h = cc
  name-from_name (y ∷ xs) text {x} h =
      ground (arith, name-from_name xs text {x = x}, str_eq_iff (name y) text)
