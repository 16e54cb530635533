-- ===== src/BTreeMap/Laws.antt =====
-- A map answers by the last value put under a key, and its entries stay in the order of the keys.
use sakai.Base.{
  Ordering-cases, Ordering, ◌≡◌, refl, sym, ap, ◌∙◌, inl, inr, Option, none, some, List, [], ◌∷◌,
  ◌++◌, append-nil, append_assoc, arith,
}
use sakai.BTreeMap.Order.{Ord}
use sakai.BTreeMap.{BTreeMap, insert, get, insert_all, from_iter}

abbrev or_else {ℓ} : {V : Type ℓ} → Option V → Option V → Option V
or_else (some v) d = some v
or_else none d = d

-- Ascending keys, without repetition.
module _ {ℓ} {K : Type 0} {V : Type ℓ} ⦃o : Ord K⦄ where
  abbrev pub Above : K → BTreeMap K V → Type 0
  Above k [] = Unit
  Above k ((j, w) ∷ m) = o.cmp k j ≡ Ordering.lt

  abbrev pub IsAscending : BTreeMap K V → Type 0
  IsAscending [] = Unit
  IsAscending ((k, v) ∷ m) = Above k m × IsAscending m

module _ {ℓ} {K : Type 0} {V : Type ℓ} ⦃o : Ord K⦄ where
  -- What `get` finds after an `insert`.
  pub get-insert :
      (k j : K) (v : V) (m : BTreeMap K V)
      → get j (insert k v m) ≡ elim (o.cmp j k) [ Ordering.eq ↦ some v | _ ↦ get j m ]
  unfolding get insert
  get-insert k j v [] = refl
  get-insert k j v ((i, w) ∷ m) =
      ground (arith, get-insert k j v m, o.cmp_iff k i, o.cmp_iff j k, o.cmp_iff j i)

  -- The last value that a list of entries gives to a key.
  abbrev pub last_value : K → List (K × V) → Option V
  last_value k [] = none
  last_value k ((j, w) ∷ kvs) = elim (last_value k kvs) [
    | some v ↦ some v
    | none ↦ elim (o.cmp k j) [ Ordering.eq ↦ some w | _ ↦ none ]
  ]

  get-insert_all :
      (kvs : List (K × V)) (m : BTreeMap K V) (k : K)
      → get k (insert_all m kvs) ≡ or_else (last_value k kvs) (get k m)
  unfolding insert_all
  get-insert_all [] m k = refl
  get-insert_all ((j, w) ∷ kvs) m k =
      ground (arith, get-insert_all kvs (insert j w m) k, get-insert j k w m)

  -- A collected map answers with the last value of each key.
  pub get-from_iter : (kvs : List (K × V)) (k : K) → get k (from_iter kvs) ≡ last_value k kvs
  unfolding from_iter
  get-from_iter kvs k = get-insert_all kvs [] k ∙ or_none (last_value k kvs)
    where
      or_none : (x : Option V) → or_else x (get k []) ≡ x
      or_none none = unfold get in refl
      or_none (some v) = refl

  Above-insert :
      (i k : K) (v : V) (m : BTreeMap K V)
      → o.cmp i k ≡ Ordering.lt
      → Above i m
      → Above i (insert k v m)
  unfolding insert
  Above-insert i k v [] h a = h
  Above-insert i k v ((j, w) ∷ m) h a = ground arith

  pub insert-IsAscending :
      (k : K) (v : V) (m : BTreeMap K V) → IsAscending m → IsAscending (insert k v m)
  unfolding insert
  insert-IsAscending k v [] a = (tt, tt)
  insert-IsAscending k v ((j, w) ∷ m) (a, as') = elim (Ordering-cases (o.cmp k j)) [
    | inl below ↦ rw (below, insert) (below, (a, as'))
    | inr (inl same) ↦ rw (same, insert) (rw (← (o.cmp_iff k j).0 same) at a, as')
    | inr (inr above) ↦
        rw (above, insert)
          (Above-insert j k v m (o.cmp_unflip k j above) a, insert-IsAscending k v m as')
  ]

  insert_all-IsAscending :
      (kvs : List (K × V)) (m : BTreeMap K V) → IsAscending m → IsAscending (insert_all m kvs)
  unfolding insert_all
  insert_all-IsAscending [] m a = a
  insert_all-IsAscending ((k, v) ∷ kvs) m a =
      insert_all-IsAscending kvs (insert k v m) (insert-IsAscending k v m a)

  -- A collected map has its entries in the order of the keys, and no key twice.
  pub from_iter-IsAscending : (kvs : List (K × V)) → IsAscending (from_iter kvs)
  unfolding from_iter
  from_iter-IsAscending kvs = insert_all-IsAscending kvs [] tt

-- A map that is in order is what collecting its entries gives.
module _ {ℓ} {K : Type 0} {V : Type ℓ} ⦃o : Ord K⦄ where
  -- Every key of the map is below `k`.
  abbrev Below : K → BTreeMap K V → Type 0
  Below k [] = Unit
  Below k ((j, w) ∷ m) = (o.cmp j k ≡ Ordering.lt) × Below k m

  insert_last : (k : K) (v : V) (m : BTreeMap K V) → Below k m → insert k v m ≡ m ++ (k, v) ∷ []
  unfolding insert
  insert_last k v [] h = refl
  insert_last k v ((j, w) ∷ m) (below, h) =
      rw (o.cmp_flip j k below, insert) (ap (◌∷◌ (j, w)) (insert_last k v m h))

  Below-append :
      (k i : K) (v : V) (m : BTreeMap K V)
      → Below i m
      → o.cmp i k ≡ Ordering.lt
      → Below k (m ++ (i, v) ∷ [])
  Below-append k i v [] h lt = (lt, tt)
  Below-append k i v ((j, w) ∷ m) (below, h) lt =
      (o.cmp_trans j i k below lt, Below-append k i v m h lt)

  FrontBelow : BTreeMap K V → BTreeMap K V → Type 0
  FrontBelow m [] = Unit
  FrontBelow m ((k, v) ∷ kvs) = Below k m

  Above-front :
      (m : BTreeMap K V) (k : K) (v : V) (kvs : BTreeMap K V)
      → Below k m
      → Above k kvs
      → FrontBelow (m ++ (k, v) ∷ []) kvs
  unfolding FrontBelow
  Above-front m k v [] h a = tt
  Above-front m k v ((j, w) ∷ kvs) h a = Below-append j k v m h a

  insert_all-append :
      (kvs m : BTreeMap K V) → IsAscending kvs → FrontBelow m kvs → insert_all m kvs ≡ m ++ kvs
  unfolding insert_all FrontBelow
  insert_all-append [] m a h = sym (append-nil m)
  insert_all-append ((k, v) ∷ kvs) m (a, as') h = rw (insert_last k v m h) (
      insert_all-append kvs (m ++ (k, v) ∷ []) as' (Above-front m k v kvs h a)
      ∙ append_assoc m ((k, v) ∷ []) kvs)

  empty_front : (kvs : BTreeMap K V) → FrontBelow [] kvs
  unfolding FrontBelow
  empty_front [] = tt
  empty_front ((k, v) ∷ kvs) = tt

  pub from_iter-same : (kvs : BTreeMap K V) → IsAscending kvs → from_iter kvs ≡ kvs
  unfolding from_iter
  from_iter-same kvs a = insert_all-append kvs [] a (empty_front kvs)
