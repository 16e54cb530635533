-- ===== src/Parse/Values.antt =====
-- Files whose every line is a key and a value of one type.
use sakai.Base.{All, ok, ◌>>=◌, collect, ◌≡◌, refl, ap, [], ◌∷◌, map}
use sakai.Str.{Str}
use sakai.Decode.{Decoder, parse_field}
use sakai.BTreeMap.{BTreeMap}
use sakai.BTreeMap.Laws.{Above, IsAscending, from_iter-same}
use sakai.Words.{IsWord}
use sakai.Parse.{keyed_fields, parse_values}
use sakai.Parse.Keyed.{Pairs, pair_file, IsPair, keyed_fields-pair_file}
use sakai.BTreeMap.Order.{str_ord}

module _ {T : Type 0} (decode : Decoder T) (show : T → Str) where
  -- The value is shown as a word that the decoder reads back.
  abbrev pub IsShown : Str × T → Type 0
  IsShown kv = IsWord kv.0 × IsWord (show kv.1) × (decode (show kv.1) ≡ ok kv.1)

  abbrev pub shown : BTreeMap Str T → Pairs
  shown kvs = map (λ (kv : Str × T). (kv.0, show kv.1)) kvs

  shown-IsPair : (kvs : BTreeMap Str T) → All IsShown kvs → All IsPair (shown kvs)
  shown-IsPair [] h = tt
  shown-IsPair (kv ∷ kvs) ((k, v, e), h) = ((k, v), shown-IsPair kvs h)

  Above-shown : (k : Str) (kvs : BTreeMap Str T) → Above k kvs → Above k (shown kvs)
  Above-shown k [] a = tt
  Above-shown k ((j, v) ∷ kvs) a = a

  shown-IsAscending : (kvs : BTreeMap Str T) → IsAscending kvs → IsAscending (shown kvs)
  shown-IsAscending [] a = tt
  shown-IsAscending ((k, v) ∷ kvs) (a, as') = (Above-shown k kvs a, shown-IsAscending kvs as')

  collect-shown :
      (raw field : Str) (kvs : BTreeMap Str T)
      → All IsShown kvs
      → collect (
          map
            (λ (entry : Str × Str). do v ← parse_field decode raw field entry.1; ok (entry.0, v))
            (shown kvs))
        ≡ ok kvs
  unfolding parse_field
  collect-shown raw field [] h = refl
  collect-shown raw field (kv ∷ kvs) ((k, v, e), h) = rw (e, collect-shown raw field kvs h)

  pub parse_values-shown :
      (vf : Str → Str) (field : Str) (kvs : BTreeMap Str T)
      → IsAscending kvs
      → All IsShown kvs
      → (keyed_fields (pair_file (shown kvs)) vf >>= λ fields. parse_values decode fields field)
        ≡ ok kvs
  unfolding parse_values
  parse_values-shown vf field kvs a h =
      rw (keyed_fields-pair_file (shown kvs) vf (shown-IsPair kvs h)) (
        rw (from_iter-same (shown kvs) (shown-IsAscending kvs a))
          (rw (collect-shown (pair_file (shown kvs)) field kvs h) (ap ok (from_iter-same kvs a))))
