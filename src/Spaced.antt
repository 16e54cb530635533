-- ===== src/Spaced.antt =====
-- Lines of words with spaces between them, and of a key and a value around an equals sign.
use sakai.Base.{◌==◌, All, All-append, ℕ, ◌≡◌, refl, ap, ◌∙◌, false, List, [], ◌∷◌, ◌++◌, map}
use sakai.Str.{Str, is_ascii_whitespace, is_whitespace, split_ascii_whitespace, is_blank}
use sakai.Str.Tokens.{split_ascii_whitespace-append, split_ascii_whitespace_self}
use sakai.Str.Lines.{IsLine}
use sakai.Words.{
  IsSolid, IsWord, IsWord-IsToken, IsWord-IsLine, is_blank-append, word-filled, word-All,
}
use sakai.Parse.Keyed.{Pairs}

-- Words with a space between them.
abbrev pub spaced : Str → List Str → Str
spaced w [] = w
spaced w (t ∷ ts) = w ++ b' ' ∷ spaced t ts

abbrev pub token : Str × Str → Str
token kv = kv.0 ++ b'=' ∷ kv.1

-- A key without an equals sign, and a value.
abbrev pub IsEquation : Str × Str → Type 0
IsEquation kv = IsWord kv.0 × All (λ c. (c == b'=') ≡ false) kv.0 × IsWord kv.1

pub IsWord-append :
    (s : Str) (c : ℕ) (t : Str) → IsWord s → IsSolid c → All IsSolid t → IsWord (s ++ c ∷ t)
IsWord-append [] c t h hc ht = absurd h
IsWord-append (d ∷ s) c t h hc ht = All-append IsSolid (d ∷ s) (c ∷ t) h (hc, ht)

pub token-IsWord : (kv : Str × Str) → IsEquation kv → IsWord (token kv)
token-IsWord kv h =
    IsWord-append kv.0 b'=' kv.1 h.0 (unfold is_whitespace in refl) (word-All kv.1 h.2)

pub tokens-IsWord : (kvs : Pairs) → All IsEquation kvs → All IsWord (map token kvs)
tokens-IsWord [] h = tt
tokens-IsWord (kv ∷ kvs) (hk, h) = (token-IsWord kv hk, tokens-IsWord kvs h)

pub split_spaced :
    (w : Str) (ts : List Str)
    → IsWord w
    → All IsWord ts
    → split_ascii_whitespace (spaced w ts) ≡ w ∷ ts
unfolding is_ascii_whitespace
split_spaced w [] h k = split_ascii_whitespace_self w (IsWord-IsToken w h)
split_spaced w (t ∷ ts) h (ht, k) =
    split_ascii_whitespace-append w b' ' (spaced t ts) (IsWord-IsToken w h) refl
    ∙ ap (◌∷◌ w) (split_spaced t ts ht k)

pub spaced-IsLine : (w : Str) (ts : List Str) → IsWord w → All IsWord ts → IsLine (spaced w ts)
spaced-IsLine w [] h k = IsWord-IsLine w h
spaced-IsLine w (t ∷ ts) h (ht, k) =
    All-append _ w (b' ' ∷ spaced t ts) (IsWord-IsLine w h) ((refl, refl), spaced-IsLine t ts ht k)

pub spaced-filled : (w : Str) (ts : List Str) → IsWord w → is_blank (spaced w ts) ≡ false
spaced-filled w [] h = word-filled w h
spaced-filled w (t ∷ ts) h = is_blank-append w (b' ' ∷ spaced t ts) h
