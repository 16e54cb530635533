-- ===== src/Pressure.antt =====
-- Pressure stall information, sakai/src/pressure.rs.
pub mod RoundTrip
use sakai.Base.{
  filter_map, ok, err, ◌>>=◌, ◌>>◌, ok_or, collect, ℕ, ◌≡◌, Option, none, some, List, [], ◌∷◌, map,
  arith,
}
use sakai.BTreeMap.Order.{Ord, index_ord}
use sakai.BTreeMap.{BTreeMap, get, from_iter}
use sakai.Decode.{parse_microseconds, parse_percent}
use sakai.Error.{out_of_range, missing, invalid, Parsed}
use sakai.Str.{Str, codes, split_ascii_whitespace, lines, filled_lines, split_once}
use sakai.Strum.{from_name}
use sakai.Unit.{Time, Float}
use sakai.Parse.{KeyedFields, new_fields, required}
use mathlib.Core.Option

pub data PressureKind : Type 0 where
  some_kind full_kind : PressureKind

unfoldable pub kind_name : PressureKind → Str
kind_name some_kind = codes "some"
kind_name full_kind = codes "full"

-- The order that is derived for the enum is that of its declaration.
unfoldable pub kind_index : PressureKind → ℕ
kind_index some_kind = 0
kind_index full_kind = 1

pub kind_index-injective : (a b : PressureKind) → kind_index a ≡ kind_index b → a ≡ b
unfolding kind_index
kind_index-injective a b h = ground arith

instance abbrev pub kind_ord : Ord PressureKind
kind_ord = index_ord kind_index kind_index-injective

pub data PressureField : Type 0 where
  avg10_field avg60_field avg300_field total_field : PressureField

unfoldable pub pressure_field_name : PressureField → Str
pressure_field_name avg10_field = codes "avg10"
pressure_field_name avg60_field = codes "avg60"
pressure_field_name avg300_field = codes "avg300"
pressure_field_name total_field = codes "total"

abbrev pressure_fields : List PressureField
pressure_fields = avg10_field ∷ avg60_field ∷ avg300_field ∷ total_field ∷ []

-- What a token after the kind contributes: a field that the parser knows, an error, or nothing.
unfoldable pub pressure_token : Str → Str → Option (Parsed (Str × Str))
unfolding split_once from_name pressure_field_name invalid
pressure_token raw token = elim (split_once b'=' token) [
  | none ↦ some (err (invalid raw (codes "value") token out_of_range))
  | some kv ↦
      Option.map (λ (f : PressureField). ok kv) (from_name pressure_field_name pressure_fields kv.0)
]

abbrev kind_fields :
    Str → List Str → Option PressureKind → Parsed (Option (PressureKind × KeyedFields))
kind_fields raw tokens none = ok none
kind_fields raw tokens (some kind) = do
  fields ← new_fields raw (filter_map (pressure_token raw) tokens)
  ok (some (kind, fields))

abbrev kind_of : Str → List Str → Parsed (Option (PressureKind × KeyedFields))
kind_of raw [] = err (missing raw (codes "kind"))
kind_of raw (kind ∷ tokens) =
    kind_fields raw tokens (from_name kind_name (some_kind ∷ full_kind ∷ []) kind)

-- `PressureKind::parse`: a line of an unknown kind is no error and has no fields.
unfoldable pub parse_kind : Str → Str → Parsed (Option (PressureKind × KeyedFields))
unfolding split_ascii_whitespace pressure_token new_fields from_name kind_name missing
parse_kind raw line = kind_of raw (split_ascii_whitespace line)

module _ (f : Float) where
  pub record PressureLine : Type 0 where
    pub avg10 : f.Ratio
    pub avg60 : f.Ratio
    pub avg300 : f.Ratio
    pub total : Time

  -- `PressureLine::from_fields`
  unfoldable pub line_of : KeyedFields → Parsed PressureLine
  unfolding required parse_percent parse_microseconds pressure_field_name
  line_of fields = do
    avg10 ← required (parse_percent f) fields (pressure_field_name avg10_field)
    avg60 ← required (parse_percent f) fields (pressure_field_name avg60_field)
    avg300 ← required (parse_percent f) fields (pressure_field_name avg300_field)
    total ← required parse_microseconds fields (pressure_field_name total_field)
    ok (record { avg10 = avg10; avg60 = avg60; avg300 = avg300; total = total })

  abbrev read_kind :
      Option (PressureKind × KeyedFields) → Parsed (Option (PressureKind × PressureLine))
  read_kind none = ok none
  read_kind (some (kind, fields)) = do line ← line_of fields; ok (some (kind, line))

  -- The lines of the file, those of an unknown kind left out.
  unfoldable pub parse_lines : Str → Parsed (BTreeMap PressureKind PressureLine)
  unfolding filled_lines parse_kind line_of from_iter
  parse_lines contents = do
    entries ←
        collect (
          map (λ line. do found ← parse_kind contents line; read_kind found)
            (filled_lines contents))
    ok (from_iter (filter_map (λ entry. entry) entries))

  pub record Pressure : Type 0 where
    pub some_line : PressureLine
    pub full : Option PressureLine

  -- `FromStr for Pressure`
  unfoldable pub parse_pressure : Str → Parsed Pressure
  unfolding parse_lines get missing kind_index
  parse_pressure contents = do
    lines ← parse_lines contents
    line ← ok_or (get some_kind lines) (missing contents (codes "some"))
    ok (record { some_line = line; full = get full_kind lines })

  pub record IrqPressure : Type 0 where
    pub full_line : PressureLine

  -- `FromStr for IrqPressure`
  unfoldable pub parse_irq_pressure : Str → Parsed IrqPressure
  unfolding parse_lines get missing kind_index
  parse_irq_pressure contents = do
    lines ← parse_lines contents
    line ← ok_or (get full_kind lines) (missing contents (codes "full"))
    ok (record { full_line = line })
