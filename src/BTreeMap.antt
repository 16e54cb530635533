-- ===== src/BTreeMap.antt =====
-- `std::collections::BTreeMap`, as the list of its entries in the order of the keys. The crate
-- builds a map only by `collect`, by `insert` and by default, and reads it by `get`, `contains_key`
-- and `iter`.
pub mod Keys
pub mod Order
pub mod Laws
pub mod Values
pub mod Extensional
use sakai.Base.{Ordering, Bool, true, false, Option, none, some, List, [], ◌∷◌}
use sakai.BTreeMap.Order.{Ord}

abbrev pub BTreeMap {ℓ} : Type 0 → Type ℓ → Type ℓ
BTreeMap K V = List (K × V)

module _ {ℓ} {K : Type 0} {V : Type ℓ} ⦃o : Ord K⦄ where
  -- An equal key keeps its place and loses its value.
  unfoldable pub insert : K → V → BTreeMap K V → BTreeMap K V
  insert k v [] = (k, v) ∷ []
  insert k v ((j, w) ∷ m) = elim (o.cmp k j) [
    | Ordering.lt ↦ (k, v) ∷ (j, w) ∷ m
    | Ordering.eq ↦ (k, v) ∷ m
    | Ordering.gt ↦ (j, w) ∷ insert k v m
  ]

  unfoldable pub get : K → BTreeMap K V → Option V
  get k [] = none
  get k ((j, w) ∷ m) = let rest = get k m in elim (o.cmp k j) [ Ordering.eq ↦ some w | _ ↦ rest ]

  unfoldable pub contains_key : K → BTreeMap K V → Bool
  unfolding get
  contains_key k m = elim (get k m) [ none ↦ false | some v ↦ true ]

  -- Inserts from the left, so the last entry of a repeated key stays.
  unfoldable pub insert_all : BTreeMap K V → List (K × V) → BTreeMap K V
  unfolding insert
  insert_all m [] = m
  insert_all m ((k, v) ∷ kvs) = insert_all (insert k v m) kvs

  -- `iter.collect::<BTreeMap<_, _>>()`
  unfoldable pub from_iter : List (K × V) → BTreeMap K V
  unfolding insert_all
  from_iter = insert_all []
