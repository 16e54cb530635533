-- ===== src/Parse/Keyed.antt =====
-- Files of keys and values: what `KeyedFields::parse` reads of a file that is written line by line.
use sakai.Base.{
  All, All-append, ok, map_ok, collect, ◌≡◌, refl, ap, ◌∙◌, false, List, [], ◌∷◌, ◌++◌, map,
}
use sakai.Str.{Str, is_ascii_whitespace, split_ascii_whitespace, is_blank}
use sakai.BTreeMap.Order.{str_ord}
use sakai.BTreeMap.{get, from_iter}
use sakai.BTreeMap.Laws.{last_value, get-from_iter}
use sakai.Words.{IsWord, IsWord-IsToken, IsWord-IsLine, is_blank-append, filled_lines-unlines}
use sakai.Str.Tokens.{split_ascii_whitespace-append, split_ascii_whitespace_self}
use sakai.Str.Lines.{IsLine, unlines}
use sakai.Parse.{parse_line, new_fields, key_value, keyed_fields}

abbrev pub Pairs : Type 0
Pairs = List (Str × Str)

unfoldable pub pair_line : Str × Str → Str
pair_line kv = kv.0 ++ b' ' ∷ kv.1

-- The file that the kernel writes: a key, a space and a value on each line.
unfoldable pub pair_file : Pairs → Str
pair_file kvs = unlines (map pair_line kvs)

abbrev pub IsPair : Str × Str → Type 0
IsPair kv = IsWord kv.0 × IsWord kv.1

pair_line-IsLine : (kv : Str × Str) → IsPair kv → IsLine (pair_line kv)
unfolding pair_line
pair_line-IsLine (k, v) h =
    All-append _ k (b' ' ∷ v) (IsWord-IsLine k h.0) ((refl, refl), IsWord-IsLine v h.1)

pair_line-filled : (kv : Str × Str) → IsPair kv → is_blank (pair_line kv) ≡ false
unfolding pair_line
pair_line-filled (k, v) h = is_blank-append k (b' ' ∷ v) h.0

All-map {ℓ} :
    {A : Type ℓ} (P : A → Type 0) (Q : Str → Type 0) (f : A → Str)
    → ((a : A) → P a → Q (f a))
    → (xs : List A) → All P xs
    → All Q (map f xs)
All-map P Q f step [] h = tt
All-map P Q f step (x ∷ xs) (hx, h) = (step x hx, All-map P Q f step xs h)

pub split_pair :
    (k v : Str) → IsWord k → IsWord v → split_ascii_whitespace (k ++ b' ' ∷ v) ≡ k ∷ v ∷ []
unfolding is_ascii_whitespace
split_pair k v hk hv =
    split_ascii_whitespace-append k b' ' v (IsWord-IsToken k hk) refl
    ∙ ap (◌∷◌ k) (split_ascii_whitespace_self v (IsWord-IsToken v hv))

parse_pair :
    (raw : Str) (vf : Str → Str) (kv : Str × Str)
    → IsPair kv
    → parse_line raw (pair_line kv) (key_value vf) ≡ ok kv
unfolding parse_line key_value pair_line
parse_pair raw vf (k, v) h = rw (split_pair k v h.0 h.1)

collect_pairs :
    (raw : Str) (vf : Str → Str) (kvs : Pairs)
    → All IsPair kvs
    → collect (map (λ line. parse_line raw line (key_value vf)) (map pair_line kvs)) ≡ ok kvs
collect_pairs raw vf [] h = refl
collect_pairs raw vf (kv ∷ kvs) (hk, h) = rw (parse_pair raw vf kv hk, collect_pairs raw vf kvs h)

pub keyed_fields-pair_file :
    (kvs : Pairs) (vf : Str → Str)
    → All IsPair kvs
    → keyed_fields (pair_file kvs) vf ≡ ok (record { raw = pair_file kvs; values = from_iter kvs })
unfolding pair_file
keyed_fields-pair_file kvs vf h =
    unfold keyed_fields new_fields in
    rw
      (filled_lines-unlines (map pair_line kvs)
        (All-map IsPair IsLine pair_line pair_line-IsLine kvs h)
        (All-map IsPair _ pair_line pair_line-filled kvs h))
      (rw (collect_pairs (unlines (map pair_line kvs)) vf kvs h))

-- The lookup of a field in such a file: the last value of the field, if there is one.
pub get-pair_file :
    (kvs : Pairs) (vf : Str → Str) (field : Str)
    → All IsPair kvs
    → map_ok (λ fields. get field fields.values) (keyed_fields (pair_file kvs) vf)
      ≡ ok (last_value field kvs)
get-pair_file kvs vf field h =
    rw (keyed_fields-pair_file kvs vf h) (ap ok (get-from_iter kvs field))
