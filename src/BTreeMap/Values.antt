-- ===== src/BTreeMap/Values.antt =====
-- A function on the values of a map: it commutes with what builds a map, since the place of an
-- entry is decided by its key alone.
use sakai.Base.{Ordering-cases, ◌≡◌, refl, ap, ◌∙◌, inl, inr, List, [], ◌∷◌, map}
use sakai.BTreeMap.Order.{Ord}
use sakai.BTreeMap.{BTreeMap, insert, insert_all, from_iter}

module _ {ℓ κ} {K : Type 0} {V : Type ℓ} {W : Type κ} (g : V → W) where
  abbrev pub on_value : K × V → K × W
  on_value (k, v) = (k, g v)

  abbrev pub map_values : BTreeMap K V → BTreeMap K W
  map_values m = map on_value m

module _ {ℓ κ} {K : Type 0} {V : Type ℓ} {W : Type κ} ⦃o : Ord K⦄ (g : V → W) where
  insert-map_values :
      (k : K) (v : V) (m : BTreeMap K V)
      → insert k (g v) (map_values g m) ≡ map_values g (insert k v m)
  unfolding insert
  insert-map_values k v [] = refl
  insert-map_values k v ((j, w) ∷ m) = elim (Ordering-cases (o.cmp k j)) [
    | inl below ↦ rw (below, insert) refl
    | inr (inl same) ↦ rw (same, insert) refl
    | inr (inr above) ↦ rw (above, insert) (ap (λ rest. (j, g w) ∷ rest) (insert-map_values k v m))
  ]

  insert_all-map_values :
      (kvs : List (K × V)) (m : BTreeMap K V)
      → insert_all (map_values g m) (map_values g kvs) ≡ map_values g (insert_all m kvs)
  unfolding insert_all
  insert_all-map_values [] m = refl
  insert_all-map_values ((k, v) ∷ kvs) m =
      ap (λ start. insert_all start (map_values g kvs)) (insert-map_values k v m)
      ∙ insert_all-map_values kvs (insert k v m)

  pub from_iter-map_values :
      (kvs : List (K × V)) → from_iter (map_values g kvs) ≡ map_values g (from_iter kvs)
  unfolding from_iter
  from_iter-map_values kvs = insert_all-map_values kvs []
