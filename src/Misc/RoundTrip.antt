-- ===== src/Misc/RoundTrip.antt =====
-- The maps of resources, printed and read back.
use sakai.Base.{All, ok, ◌≤◌, ◌≡◌, refl, ◌∙◌, [], ◌∷◌}
use sakai.Str.{Str, codes, is_whitespace}
use sakai.Num.{u64_max, print}
use sakai.Decode.{parse_count, max_or}
use sakai.Decode.Sound.{parse_count-print, max_or-print, max_or-max}
use sakai.Unit.{Count, MaxOr, max_token, value}
use sakai.Words.{IsWord, print-IsWord, is_word-IsWord}
use sakai.BTreeMap.{BTreeMap}
use sakai.BTreeMap.Laws.{IsAscending}
use sakai.Parse.Keyed.{pair_file}
use sakai.Parse.Values.{IsShown, shown, parse_values-shown}
use sakai.Misc.{parse_misc_counts, parse_misc_max}
use sakai.BTreeMap.Order.{str_ord}

abbrev pub show_count : Count → Str
show_count c = print c.count

-- The key is a word, and the number has 64 bits.
abbrev pub IsEntry : Str × Count → Type 0
IsEntry kv = IsWord kv.0 × (kv.1.count ≤ u64_max)

entries-IsShown : (m : BTreeMap Str Count) → All IsEntry m → All (IsShown parse_count show_count) m
entries-IsShown [] h = tt
entries-IsShown ((k, c) ∷ m) ((hk, fits), h) =
    ((hk, print-IsWord c.count, parse_count-print c.count fits), entries-IsShown m h)

-- A map of counts, one line for each resource, is read back as it was, if its keys are words in
-- ascending order and its numbers have 64 bits.
pub parse_misc_counts-shown :
    (m : BTreeMap Str Count)
    → IsAscending m
    → All IsEntry m
    → parse_misc_counts (pair_file (shown parse_count show_count m)) ≡ ok m
unfolding parse_misc_counts
parse_misc_counts-shown m a h =
    parse_values-shown parse_count show_count (λ _. codes "value") (codes "value") m a
      (entries-IsShown m h)

abbrev pub show_limit : MaxOr Count → Str
show_limit max_token = codes "max"
show_limit (value c) = print c.count

abbrev pub FitsLimit : MaxOr Count → Type 0
FitsLimit max_token = Unit
FitsLimit (value c) = c.count ≤ u64_max

abbrev pub IsLimit : Str × MaxOr Count → Type 0
IsLimit kv = IsWord kv.0 × FitsLimit kv.1

decode_limit : (v : MaxOr Count) → FitsLimit v → max_or parse_count (show_limit v) ≡ ok v
decode_limit max_token h = max_or-max parse_count
decode_limit (value c) h = max_or-print parse_count c.count ∙ rw (parse_count-print c.count h)

show_limit-IsWord : (v : MaxOr Count) → IsWord (show_limit v)
show_limit-IsWord max_token = is_word-IsWord (codes "max") (unfold is_whitespace in refl)
show_limit-IsWord (value c) = print-IsWord c.count

limits-IsShown :
    (m : BTreeMap Str (MaxOr Count))
    → All IsLimit m
    → All (IsShown (max_or parse_count) show_limit) m
limits-IsShown [] h = tt
limits-IsShown ((k, v) ∷ m) ((hk, fits), h) =
    ((hk, show_limit-IsWord v, decode_limit v fits), limits-IsShown m h)

-- A map of limits, each `max` or a count, one line for each resource, is read back as it was, if its
-- keys are words in ascending order and its numbers have 64 bits.
pub parse_misc_max-shown :
    (m : BTreeMap Str (MaxOr Count))
    → IsAscending m
    → All IsLimit m
    → parse_misc_max (pair_file (shown (max_or parse_count) show_limit m)) ≡ ok m
unfolding parse_misc_max
parse_misc_max-shown m a h =
    parse_values-shown (max_or parse_count) show_limit (λ _. codes "value") (codes "value") m a
      (limits-IsShown m h)
