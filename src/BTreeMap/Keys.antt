-- ===== src/BTreeMap/Keys.antt =====
-- `Ord` of options and of tuples, and the entries of a map under other keys.
use sakai.Base.{Ordering, ◌≡◌, refl, ◌∙◌, ◌↔◌, Option, none, some, [], ◌∷◌, map, arith}
use sakai.BTreeMap.Order.{Ord, then_cmp}
use sakai.BTreeMap.{BTreeMap, from_iter}
use sakai.BTreeMap.Laws.{Above, IsAscending, from_iter-same}

-- `Ord for Option`: no value comes first.
module _ {A : Type 0} ⦃o : Ord A⦄ where
  abbrev pub cmp_option : Option A → Option A → Ordering
  cmp_option none none = Ordering.eq
  cmp_option none (some b) = Ordering.lt
  cmp_option (some a) none = Ordering.gt
  cmp_option (some a) (some b) = o.cmp a b

  pub option_iff : (a b : Option A) → (cmp_option a b ≡ Ordering.eq) ↔ (a ≡ b)
  option_iff none none = (λ h. refl, λ h. refl)
  option_iff none (some b) = (λ h. cc, λ h. cc)
  option_iff (some a) none = (λ h. cc, λ h. cc)
  option_iff (some a) (some b) = ground (arith, o.cmp_iff a b)

  pub option_flip : (a b : Option A) → cmp_option a b ≡ Ordering.lt → cmp_option b a ≡ Ordering.gt
  option_flip none none h = cc
  option_flip none (some b) h = refl
  option_flip (some a) none h = cc
  option_flip (some a) (some b) h = o.cmp_flip a b h

  pub option_unflip : (a b : Option A) → cmp_option a b ≡ Ordering.gt → cmp_option b a ≡ Ordering.lt
  option_unflip none none h = cc
  option_unflip none (some b) h = cc
  option_unflip (some a) none h = refl
  option_unflip (some a) (some b) h = o.cmp_unflip a b h

  pub option_trans :
      (a b c : Option A)
      → cmp_option a b ≡ Ordering.lt
      → cmp_option b c ≡ Ordering.lt
      → cmp_option a c ≡ Ordering.lt
  option_trans none none c h k = cc
  option_trans none (some b) none h k = cc
  option_trans none (some b) (some c) h k = refl
  option_trans (some a) none c h k = cc
  option_trans (some a) (some b) none h k = cc
  option_trans (some a) (some b) (some c) h k = o.cmp_trans a b c h k

  instance abbrev pub option_ord : Ord (Option A)
  option_ord = record {
    cmp = cmp_option;
    cmp_iff = option_iff;
    cmp_flip = option_flip;
    cmp_unflip = option_unflip;
    cmp_trans = option_trans;
  }

-- `Ord` of tuples: the first components decide, and the second where they are the same.
module _ {A B : Type 0} ⦃o : Ord A⦄ ⦃p : Ord B⦄ where
  abbrev pub cmp_pair : A × B → A × B → Ordering
  cmp_pair (a, b) (c, d) = then_cmp (o.cmp a c) (p.cmp b d)

  pub pair_iff : (x y : A × B) → (cmp_pair x y ≡ Ordering.eq) ↔ (x ≡ y)
  pair_iff (a, b) (c, d) = ground (arith, o.cmp_iff a c, p.cmp_iff b d)

  pub pair_flip : (x y : A × B) → cmp_pair x y ≡ Ordering.lt → cmp_pair y x ≡ Ordering.gt
  pair_flip (a, b) (c, d) h =
      ground (arith, o.cmp_flip a c, o.cmp_iff a c, o.cmp_iff c a, p.cmp_flip b d)

  pub pair_unflip : (x y : A × B) → cmp_pair x y ≡ Ordering.gt → cmp_pair y x ≡ Ordering.lt
  pair_unflip (a, b) (c, d) h =
      ground (arith, o.cmp_unflip a c, o.cmp_iff a c, o.cmp_iff c a, p.cmp_unflip b d)

  pub pair_trans :
      (x y z : A × B)
      → cmp_pair x y ≡ Ordering.lt
      → cmp_pair y z ≡ Ordering.lt
      → cmp_pair x z ≡ Ordering.lt
  pair_trans (a, b) (c, d) (e, f) h k =
      ground
        (arith, o.cmp_trans a c e, o.cmp_iff a c, o.cmp_iff c e, o.cmp_iff a e, p.cmp_trans b d f)

  instance abbrev pub pair_ord : Ord (A × B)
  pair_ord = record {
    cmp = cmp_pair;
    cmp_iff = pair_iff;
    cmp_flip = pair_flip;
    cmp_unflip = pair_unflip;
    cmp_trans = pair_trans;
  }

module _ {K J V W : Type 0} (key : K → J) (convert : V → W) where
  abbrev pub on_entry : K × V → J × W
  on_entry (k, v) = (key k, convert v)

-- Keys that compare as the former ones keep a map in order, so that collecting changes nothing.
module _ {K J V W : Type 0} ⦃o : Ord K⦄ ⦃p : Ord J⦄ (key : K → J) (convert : V → W)
    (same : (a b : K) → p.cmp (key a) (key b) ≡ o.cmp a b) where
  Above-on_entry :
      (k : K) (m : BTreeMap K V) → Above k m → Above (key k) (map (on_entry key convert) m)
  Above-on_entry k [] a = tt
  Above-on_entry k ((j, v) ∷ m) a = same k j ∙ a

  pub on_entry-IsAscending :
      (m : BTreeMap K V) → IsAscending m → IsAscending (map (on_entry key convert) m)
  on_entry-IsAscending [] a = tt
  on_entry-IsAscending ((k, v) ∷ m) (a, rest) = (Above-on_entry k m a, on_entry-IsAscending m rest)

  pub from_iter-on_entry :
      (m : BTreeMap K V)
      → IsAscending m
      → from_iter (map (on_entry key convert) m) ≡ map (on_entry key convert) m
  from_iter-on_entry m a = from_iter-same (map (on_entry key convert) m) (on_entry-IsAscending m a)
