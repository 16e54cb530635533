-- ===== src/BTreeMap/Order.antt =====
-- The orders of the keys: `Ord` of `u32`, `str` and of structs whose fields are compared in turn.
use sakai.Base.{ℕ, Ordering, compare, ◌≡◌, refl, ◌↔◌, [], ◌∷◌, arith}
use sakai.Str.{Str}

pub record Ord (K : Type 0) : Type 0 where
  pub cmp : K → K → Ordering
  pub cmp_iff : (a b : K) → (cmp a b ≡ Ordering.eq) ↔ (a ≡ b)
  pub cmp_flip : (a b : K) → cmp a b ≡ Ordering.lt → cmp b a ≡ Ordering.gt
  pub cmp_unflip : (a b : K) → cmp a b ≡ Ordering.gt → cmp b a ≡ Ordering.lt
  pub cmp_trans :
      (a b c : K) → cmp a b ≡ Ordering.lt → cmp b c ≡ Ordering.lt → cmp a c ≡ Ordering.lt

pub nat_iff : (a b : ℕ) → (compare a b ≡ Ordering.eq) ↔ (a ≡ b)
nat_iff a b = ground arith

pub nat_flip : (a b : ℕ) → compare a b ≡ Ordering.lt → compare b a ≡ Ordering.gt
nat_flip a b h = ground arith

pub nat_unflip : (a b : ℕ) → compare a b ≡ Ordering.gt → compare b a ≡ Ordering.lt
nat_unflip a b h = ground arith

pub nat_trans :
    (a b c : ℕ) → compare a b ≡ Ordering.lt → compare b c ≡ Ordering.lt → compare a c ≡ Ordering.lt
nat_trans a b c h k = ground arith

-- `Ord for u32`
instance abbrev pub nat_ord : Ord ℕ
nat_ord = record {
  cmp = compare;
  cmp_iff = nat_iff;
  cmp_flip = nat_flip;
  cmp_unflip = nat_unflip;
  cmp_trans = nat_trans;
}

-- The first difference decides.
abbrev pub then_cmp : Ordering → Ordering → Ordering
then_cmp Ordering.eq o = o
then_cmp Ordering.lt o = Ordering.lt
then_cmp Ordering.gt o = Ordering.gt

-- `Ord for str`: code points compare as their UTF-8 bytes do.
unfoldable pub cmp_str : Str → Str → Ordering
cmp_str [] [] = Ordering.eq
cmp_str [] (d ∷ t) = Ordering.lt
cmp_str (c ∷ s) [] = Ordering.gt
cmp_str (c ∷ s) (d ∷ t) = then_cmp (compare c d) (cmp_str s t)

pub str_iff : (s t : Str) → (cmp_str s t ≡ Ordering.eq) ↔ (s ≡ t)
unfolding cmp_str
str_iff [] [] = ground arith
str_iff [] (d ∷ t) = ground arith
str_iff (c ∷ s) [] = ground arith
str_iff (c ∷ s) (d ∷ t) = ground (arith, str_iff s t, nat_iff c d)

pub str_flip : (s t : Str) → cmp_str s t ≡ Ordering.lt → cmp_str t s ≡ Ordering.gt
unfolding cmp_str
str_flip [] [] h = cc
str_flip [] (d ∷ t) h = refl
str_flip (c ∷ s) [] h = cc
str_flip (c ∷ s) (d ∷ t) h = ground (arith, str_flip s t)

pub str_unflip : (s t : Str) → cmp_str s t ≡ Ordering.gt → cmp_str t s ≡ Ordering.lt
unfolding cmp_str
str_unflip [] [] h = cc
str_unflip [] (d ∷ t) h = cc
str_unflip (c ∷ s) [] h = refl
str_unflip (c ∷ s) (d ∷ t) h = ground (arith, str_unflip s t)

pub str_trans :
    (s t u : Str)
    → cmp_str s t ≡ Ordering.lt
    → cmp_str t u ≡ Ordering.lt
    → cmp_str s u ≡ Ordering.lt
unfolding cmp_str
str_trans [] [] u h k = cc
str_trans [] (d ∷ t) [] h k = cc
str_trans [] (d ∷ t) (e ∷ u) h k = refl
str_trans (c ∷ s) [] u h k = cc
str_trans (c ∷ s) (d ∷ t) [] h k = cc
str_trans (c ∷ s) (d ∷ t) (e ∷ u) h k = ground (arith, str_trans s t u)

instance abbrev pub str_ord : Ord Str
str_ord = record {
  cmp = cmp_str;
  cmp_iff = str_iff;
  cmp_flip = str_flip;
  cmp_unflip = str_unflip;
  cmp_trans = str_trans;
}

-- The order that is derived for an enum: that of the positions of its variants.
module _ {A : Type 0} (index : A → ℕ) (injective : (a b : A) → index a ≡ index b → a ≡ b) where
  abbrev pub cmp_index : A → A → Ordering
  cmp_index a b = compare (index a) (index b)

  pub index_iff : (a b : A) → (cmp_index a b ≡ Ordering.eq) ↔ (a ≡ b)
  index_iff a b = (λ h. injective a b (ground arith), λ e. rw e (ground arith))

  pub index_flip : (a b : A) → cmp_index a b ≡ Ordering.lt → cmp_index b a ≡ Ordering.gt
  index_flip a b h = ground arith

  pub index_unflip : (a b : A) → cmp_index a b ≡ Ordering.gt → cmp_index b a ≡ Ordering.lt
  index_unflip a b h = ground arith

  pub index_trans :
      (a b c : A)
      → cmp_index a b ≡ Ordering.lt
      → cmp_index b c ≡ Ordering.lt
      → cmp_index a c ≡ Ordering.lt
  index_trans a b c h k = ground arith

  abbrev pub index_ord : Ord A
  index_ord = record {
    cmp = cmp_index;
    cmp_iff = index_iff;
    cmp_flip = index_flip;
    cmp_unflip = index_unflip;
    cmp_trans = index_trans;
  }
