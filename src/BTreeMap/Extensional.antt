-- ===== src/BTreeMap/Extensional.antt =====
-- A map is known by what it answers.
use sakai.Base.{
  Ordering-cases, Ordering, ◌≡◌, refl, sym, ◌∙◌, subst, ◌≢◌, inl, inr, none, some, [], ◌∷◌,
}
use sakai.BTreeMap.{BTreeMap, get}
use sakai.BTreeMap.Order.{Ord}
use sakai.BTreeMap.Laws.{Above, IsAscending}

module _ {ℓ} {K : Type 0} {V : Type ℓ} ⦃o : Ord K⦄ where
  -- A key before the first has no value.
  pub get-Above : (k : K) (m : BTreeMap K V) → IsAscending m → Above k m → get k m ≡ none
  unfolding get
  get-Above k [] a above = refl
  get-Above k ((j, w) ∷ []) a above = rw (above, get)
  get-Above k ((j, w) ∷ (i, u) ∷ m) (a, as') above =
      rw (above, get) (get-Above k ((i, u) ∷ m) as' (o.cmp_trans k j i above a))

  pub get-first : (k : K) (v : V) (m : BTreeMap K V) → get k ((k, v) ∷ m) ≡ some v
  unfolding get
  get-first k v m = rw ((o.cmp_iff k k).1 refl, get)

  pub get-other :
      (i k : K) (v : V) (m : BTreeMap K V) → o.cmp i k ≢ Ordering.eq → get i ((k, v) ∷ m) ≡ get i m
  unfolding get
  get-other i k v m other = elim (Ordering-cases (o.cmp i k)) [
    | inl below ↦ rw (below, get)
    | inr (inl same) ↦ absurd (other same)
    | inr (inr above) ↦ rw (above, get)
  ]

  tails :
      (k : K) (v w : V) (m n : BTreeMap K V)
      → IsAscending ((k, v) ∷ m)
      → IsAscending ((k, w) ∷ n)
      → ((i : K) → get i ((k, v) ∷ m) ≡ get i ((k, w) ∷ n))
      → (some v ≡ some w) × ((i : K) → get i m ≡ get i n)
  tails k v w m n (a, as') (b, bs) h = (
    sym (get-first k v m) ∙ h k ∙ get-first k w n,
    λ i. elim (Ordering-cases (o.cmp i k)) [
      | inl below ↦ other i (cc (below))
      | inr (inr above) ↦ other i (cc (above))
      | inr (inl same) ↦
          subst (λ x. get x m ≡ get x n) (sym ((o.cmp_iff i k).0 same))
            (get-Above k m as' a ∙ sym (get-Above k n bs b))
    ],
  )
    where
      other : (i : K) → o.cmp i k ≢ Ordering.eq → get i m ≡ get i n
      other i ne = sym (get-other i k v m ne) ∙ h i ∙ get-other i k w n ne

  pub get-extensional :
      (m n : BTreeMap K V) → IsAscending m → IsAscending n → ((k : K) → get k m ≡ get k n) → m ≡ n
  get-extensional [] [] a b h = refl
  get-extensional [] ((j, w) ∷ n) a b h = cc (h j, get-first j w n, get-Above j [] tt tt)
  get-extensional ((k, v) ∷ m) [] a b h = cc (h k, get-first k v m, get-Above k [] tt tt)
  get-extensional ((k, v) ∷ m) ((j, w) ∷ n) (a, as') (b, bs) h = elim (Ordering-cases (o.cmp k j)) [
    | inl below ↦ cc (h k, get-first k v m, get-Above k ((j, w) ∷ n) (b, bs) below)
    | inr (inr above) ↦
        cc (h j, get-first j w n, get-Above j ((k, v) ∷ m) (a, as') (o.cmp_unflip k j above))
    | inr (inl same) ↦ front ((o.cmp_iff k j).0 same) (λ rest. get-extensional m n as' bs rest)
  ]
    where
      front : k ≡ j → (((i : K) → get i m ≡ get i n) → m ≡ n) → (k, v) ∷ m ≡ (j, w) ∷ n
      front e tails_same =
          let b' : Above k n = subst (λ x. Above x n) (sym e) b in
          let h' : (i : K) → get i ((k, v) ∷ m) ≡ get i ((k, w) ∷ n) =
            λ i. subst (λ x. get i ((k, v) ∷ m) ≡ get i ((x, w) ∷ n)) (sym e) (h i) in
          let (same_value, rest) = tails k v w m n (a, as') (b', bs) h' in
          let same_rest = tails_same rest in cc (e, same_value, same_rest)
