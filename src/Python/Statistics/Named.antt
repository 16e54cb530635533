-- ===== src/Python/Statistics/Named.antt =====
-- The maps by names hold what the maps by fields hold: sakai-python/src/linux/memory.rs.
use sakai.Memory.Stat.Baseline.{parse_memory_stat-baseline}
use sakai.Memory.Stat.{MemoryStat, parse_memory_stat}
use sakai.Memory.CountsField.{
  MemoryStatCountField, count_name, count_fields, from_name-count_name, count_ord,
}
use sakai.Memory.PagesField.{
  MemoryStatPageField, page_name, page_fields, from_name-page_name, page_ord,
}
use sakai.Memory.BytesField.{
  MemoryStatByteField, byte_name, byte_fields, from_name-byte_name, byte_ord,
}
use sakai.Strum.{from_name}
use sakai.BTreeMap.Extensional.{get-Above, get-first, get-other}
use sakai.BTreeMap.Laws.{IsAscending, last_value, get-from_iter}
use sakai.BTreeMap.Order.{Ord, cmp_str, str_iff}
use sakai.Str.{Str}
use sakai.Base.{
  Ordering-cases, ok, Ordering, ◌≡◌, refl, sym, ap, ◌∙◌, subst, ◌≢◌, inl, inr, Option, none, some,
  List, [], ◌∷◌, map,
}
use sakai.BTreeMap.Order.{str_ord}
use sakai.BTreeMap.{BTreeMap, get}
use sakai.Python.Statistics.{named_entry, fields, from_memory_stat}
use mathlib.Core.Option

keep_later :
    {W : Type 0} (later : Option W) (c : Ordering) (w : W)
    → c ≢ Ordering.eq
    → Path
        (Option W)
        (elim later [ some v ↦ some v | none ↦ elim c [ Ordering.eq ↦ some w | _ ↦ none ] ])
        later
keep_later (some v) c w ne = refl
keep_later none Ordering.lt w ne = refl
keep_later none Ordering.eq w ne = absurd (ne refl)
keep_later none Ordering.gt w ne = refl

module _ {F V W : Type 0} ⦃o : Ord F⦄ (name : F → Str)
    (injective : (a b : F) → name a ≡ name b → a ≡ b) (convert : V → W) where
  abbrev last_named : F → BTreeMap F V → Option W
  last_named field m = last_value (name field) (map (named_entry name convert) m)

  abbrev Agrees : F → BTreeMap F V → Type 0
  Agrees field m = last_named field m ≡ Option.map convert (get field m)

  last_named-same :
      (key : F) (v : V) (m : BTreeMap F V)
      → IsAscending ((key, v) ∷ m)
      → Agrees key m
      → Agrees key ((key, v) ∷ m)
  last_named-same key v m (above, as') rest =
      rw (rest, get-Above key m as' above)
        (rw ((str_iff (name key) (name key)).1 refl, get-first key v m) refl)

  last_named-other :
      (field key : F) (v : V) (m : BTreeMap F V)
      → o.cmp field key ≢ Ordering.eq
      → Agrees field m
      → Agrees field ((key, v) ∷ m)
  last_named-other field key v m ne rest =
      keep_later (last_named field m) (cmp_str (name field) (name key)) (convert v) (λ same.
        ne (
          (o.cmp_iff field key).1 (injective field key ((str_iff (name field) (name key)).0 same))))
      ∙ rest
      ∙ ap (Option.map convert) (sym (get-other field key v m ne))

  last_named-Agrees : (field : F) (m : BTreeMap F V) → IsAscending m → Agrees field m
  last_named-Agrees field [] a = unfold get in refl
  last_named-Agrees field ((key, v) ∷ m) (above, as') =
      let rest = last_named-Agrees field m as' in
      elim (Ordering-cases (o.cmp field key)) [
        | inl below ↦ last_named-other field key v m (λ same. cc) rest
        | inr (inr later) ↦ last_named-other field key v m (λ same. cc) rest
        | inr (inl same) ↦
            let e : field ≡ key = (o.cmp_iff field key).0 same in
            subst (λ x. Agrees x ((key, v) ∷ m)) (sym e)
              (last_named-same key v m (above, as') (subst (λ x. Agrees x m) e rest))
      ]

  -- The map by names answers the name of a field as the map by fields answers the field.
  pub get-fields :
      (field : F) (m : BTreeMap F V)
      → IsAscending m
      → get (name field) (fields name convert m) ≡ Option.map convert (get field m)
  unfolding fields
  get-fields field m a =
      get-from_iter (map (named_entry name convert) m) (name field) ∙ last_named-Agrees field m a

-- The names of the fields tell them apart.
name-injective :
    {F : Type 0} (name : F → Str) (fields : List F)
    → ((x : F) → from_name name fields (name x) ≡ some x)
    → (a b : F) → name a ≡ name b
    → a ≡ b
name-injective name fields known a b e =
    some-eq (sym (known a) ∙ ap (from_name name fields) e ∙ known b)
  where
    some-eq : {F : Type 0} {a b : F} → some a ≡ some b → a ≡ b
    some-eq h = cc

-- Of an accepted `memory.stat`, Python finds under the name of a field, in the map of its unit, what
-- the crate finds under the field: its value, or that there is none.
pub from_memory_stat-get :
    (contents : Str) (stat : MemoryStat)
    → parse_memory_stat contents ≡ ok stat
    → ((x : MemoryStatByteField)
        → get (byte_name x) (from_memory_stat stat).bytes ≡ get x stat.byte_values)
      × ((x : MemoryStatPageField)
          → get (page_name x) (from_memory_stat stat).pages ≡ get x stat.page_values)
      × ((x : MemoryStatCountField)
          → get (count_name x) (from_memory_stat stat).counts ≡ get x stat.count_values)
unfolding from_memory_stat
from_memory_stat-get contents stat h =
    let (has_anon, has_file, ordered) = parse_memory_stat-baseline contents stat h in
    (
      λ x.
          get-fields byte_name (name-injective byte_name byte_fields from_name-byte_name) (λ v. v) x
            stat.byte_values ordered.0
          ∙ map_same (get x stat.byte_values),
      λ x.
          get-fields page_name (name-injective page_name page_fields from_name-page_name) (λ v. v) x
            stat.page_values ordered.1
          ∙ map_same (get x stat.page_values),
      λ x.
          get-fields count_name (name-injective count_name count_fields from_name-count_name)
            (λ v. v) x stat.count_values ordered.2
          ∙ map_same (get x stat.count_values),
    )
  where
    map_same : {V : Type 0} (v : Option V) → Option.map (λ x. x) v ≡ v
    map_same none = refl
    map_same (some x) = refl
