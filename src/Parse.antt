-- ===== src/Parse.antt =====
-- `KeyedFields` and `Parser` of sakai/src/parse/mod.rs.
pub mod Single
pub mod Keyed
pub mod Values
pub mod Abstract
use sakai.Base.{
  if◌then◌else◌, is_empty, any, ok, err, ◌>>=◌, ◌>>◌, ok_or, transpose, collect, Bool, Option, List,
  [], ◌∷◌, map,
}
use sakai.BTreeMap.{BTreeMap, get, contains_key, from_iter}
use sakai.BTreeMap.Order.{cmp_str, str_ord}
use sakai.Decode.{Decoder, parse_field}
use sakai.Error.{missing, excess, Parsed}
use sakai.Str.{Str, codes, split_ascii_whitespace, filled_lines}
use mathlib.Core.Option

-- The fields that are left, behind the whole text for the errors.
pub record Parser : Type 0 where
  pub raw : Str
  pub fields : List Str

-- A method of `Parser`: it returns its value and the parser behind it.
abbrev pub Step {ℓ} : Type ℓ → Type ℓ
Step T = Parser → Parsed (T × Parser)

unfoldable pub new_parser : Str → Str → Parser
unfolding split_ascii_whitespace
new_parser raw line = record { raw = raw; fields = split_ascii_whitespace line }

abbrev take_field : List Str → Str → Str → Parsed (Str × Parser)
take_field [] raw field = err (missing raw field)
take_field (text ∷ rest) raw field = ok (text, record { raw = raw; fields = rest })

unfoldable pub next_raw_field : Str → Step Str
unfolding missing
next_raw_field field p = take_field p.fields p.raw field

unfoldable pub next_field {ℓ} : {T : Type ℓ} → Decoder T → Str → Step T
unfolding next_raw_field parse_field
next_field decode field p = do
  (text, p') ← next_raw_field field p
  v ← parse_field decode p.raw field text
  ok (v, p')

unfoldable pub finish : Parser → Parsed (Unit {0})
unfolding excess
finish p = if is_empty p.fields then ok tt else err (excess p.raw)

unfoldable pub parse_line {ℓ} : {T : Type ℓ} → Str → Str → Step T → Parsed T
unfolding new_parser finish
parse_line raw line f = do (v, p) ← f (new_parser raw line); finish p; ok v

-- `Parser::parse`
unfoldable pub parse_all {ℓ} : {T : Type ℓ} → Str → Step T → Parsed T
unfolding parse_line
parse_all raw f = parse_line raw raw f

unfoldable pub single {ℓ} : {T : Type ℓ} → Decoder T → Str → Str → Parsed T
unfolding parse_all next_field
single decode raw field = parse_all raw (next_field decode field)

pub record KeyedFields : Type 0 where
  pub raw : Str
  pub values : BTreeMap Str Str

-- `KeyedFields::new`
unfoldable pub new_fields : Str → List (Parsed (Str × Str)) → Parsed KeyedFields
unfolding from_iter cmp_str
new_fields raw fields = do
  entries ← collect fields
  ok (record { raw = raw; values = from_iter entries })

unfoldable pub key_value : (Str → Str) → Step (Str × Str)
unfolding next_raw_field
key_value value_field p = do
  (key, p') ← next_raw_field (codes "key") p
  (text, p'') ← next_raw_field (value_field key) p'
  ok ((key, text), p'')

-- `KeyedFields::parse`
unfoldable pub keyed_fields : Str → (Str → Str) → Parsed KeyedFields
unfolding new_fields filled_lines parse_line key_value
keyed_fields raw value_field =
    new_fields raw (map (λ line. parse_line raw line (key_value value_field)) (filled_lines raw))

unfoldable pub contains_any : KeyedFields → List Str → Bool
unfolding contains_key cmp_str
contains_any fields names = any (λ name. contains_key name fields.values) names

unfoldable pub parse_values {ℓ} :
    {T : Type ℓ} → Decoder T → KeyedFields → Str → Parsed (BTreeMap Str T)
unfolding from_iter parse_field cmp_str
parse_values decode fields field = do
  entries ← collect (
      map
        (λ (entry : Str × Str). do v ← parse_field decode fields.raw field entry.1; ok (entry.0, v))
        fields.values)
  ok (from_iter entries)

unfoldable pub required {ℓ} : {T : Type ℓ} → Decoder T → KeyedFields → Str → Parsed T
unfolding get parse_field missing cmp_str
required decode fields field = do
  text ← ok_or (get field fields.values) (missing fields.raw field)
  parse_field decode fields.raw field text

unfoldable pub optional {ℓ} : {T : Type ℓ} → Decoder T → KeyedFields → Str → Parsed (Option T)
unfolding get parse_field cmp_str
optional decode fields field =
    transpose (Option.map (parse_field decode fields.raw field) (get field fields.values))
