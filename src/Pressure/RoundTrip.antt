-- ===== src/Pressure/RoundTrip.antt =====
-- The file of a pressure interface as the kernel writes it, read back.
use sakai.Base.{
  filter_map, All, ok, ◌>>=◌, collect, ℕ, ◌*◌, ◌≤◌, ◌≡◌, refl, true, false, Option, none, some,
  List, [], ◌∷◌, map,
}
use sakai.Str.Lines.{IsLine, unlines}
use sakai.Error.{Parsed}
use sakai.Str.{Str, codes, is_whitespace, is_blank}
use sakai.Num.{u64_max, print}
use sakai.Decode.{parse_percent}
use sakai.Decode.Sound.{parse_microseconds-print}
use sakai.Unit.{Float}
use sakai.Words.{IsWord, filled_lines-unlines, print-IsWord, is_word, is_word-IsWord, word-All}
use sakai.Spaced.{spaced, token, IsWord-append, split_spaced, spaced-IsLine, spaced-filled}
use sakai.BTreeMap.{from_iter}
use sakai.Parse.{KeyedFields}
use sakai.Parse.Keyed.{Pairs}
use sakai.Pressure.{
  PressureKind, some_kind, full_kind, kind_index, parse_kind, PressureLine, line_of, parse_lines,
  parse_pressure, kind_of, read_kind,
}
use sakai.BTreeMap.Order.{cmp_str, str_ord}
use sakai.Pressure.{kind_ord}

-- The texts of a line's averages, and its total in microseconds.
pub record Shown : Type 0 where
  pub avg10 : Str
  pub avg60 : Str
  pub avg300 : Str
  pub total : ℕ

abbrev equations : Shown → Pairs
equations t =
    (codes "avg10", t.avg10)
    ∷ (codes "avg60", t.avg60)
    ∷ (codes "avg300", t.avg300)
    ∷ (codes "total", print t.total)
    ∷ []

-- The word that the kernel writes in front of a line.
abbrev pub word_of : PressureKind → Str
word_of some_kind = codes "some"
word_of full_kind = codes "full"

abbrev pub pressure_line : PressureKind → Shown → Str
pressure_line kind t = spaced (word_of kind) (map token (equations t))

module _ (f : Float) where
  -- The averages are words that are read as the line's percentages, and the total fits.
  abbrev pub Reads : Shown → PressureLine f → Type 0
  Reads t line =
      (IsWord t.avg10 × (parse_percent f t.avg10 ≡ ok line.avg10))
      × (IsWord t.avg60 × (parse_percent f t.avg60 ≡ ok line.avg60))
      × (IsWord t.avg300 × (parse_percent f t.avg300 ≡ ok line.avg300))
      × (t.total * 1000 ≤ u64_max)
      × (line.total ≡ record { nanoseconds = t.total * 1000 })

  word_of-IsWord : (kind : PressureKind) → IsWord (word_of kind)
  unfolding is_whitespace
  word_of-IsWord some_kind = (refl, (refl, (refl, (refl, tt))))
  word_of-IsWord full_kind = (refl, (refl, (refl, (refl, tt))))

  equation-IsWord : (key text : Str) → is_word key ≡ true → IsWord text → IsWord (token (key, text))
  equation-IsWord key text h k =
      IsWord-append key b'=' text (is_word-IsWord key h) (unfold is_whitespace in refl)
        (word-All text k)

  equations-IsWord :
      (t : Shown) (line : PressureLine f) → Reads t line → All IsWord (map token (equations t))
  unfolding is_whitespace
  equations-IsWord t line (h10, h60, h300, fits, total) = (
    equation-IsWord (codes "avg10") t.avg10 refl h10.0,
    (
      equation-IsWord (codes "avg60") t.avg60 refl h60.0,
      (
        equation-IsWord (codes "avg300") t.avg300 refl h300.0,
        (equation-IsWord (codes "total") (print t.total) refl (print-IsWord t.total), tt),
      ),
    ),
  )

  fields_of : Str → Shown → KeyedFields
  fields_of raw t = record { raw = raw; values = from_iter (equations t) }

  kind_read :
      (raw : Str) (kind : PressureKind) (t : Shown)
      → kind_of raw (word_of kind ∷ map token (equations t)) ≡ ok (some (kind, fields_of raw t))
  unfolding fields_of parse_kind
  kind_read raw some_kind t = refl
  kind_read raw full_kind t = refl

  line_read :
      (raw : Str) (t : Shown) (line : PressureLine f)
      → Reads t line
      → line_of f (fields_of raw t) ≡ ok line
  unfolding line_of fields_of from_iter cmp_str
  line_read raw t line (h10, h60, h300, fits, total) =
      rw (h10.1, h60.1, h300.1, parse_microseconds-print t.total fits, ← total)

  -- The lines of a file with what they are read as.
  abbrev Lines : Type 0
  Lines = List (PressureKind × (Shown × PressureLine f))

  abbrev lines_of : Lines → List Str
  lines_of ls = map (λ (l : PressureKind × (Shown × PressureLine f)). pressure_line l.0 l.1.0) ls

  abbrev pub AllRead : Lines → Type 0
  AllRead ls = All (λ (l : PressureKind × (Shown × PressureLine f)). Reads l.1.0 l.1.1) ls

  abbrev read_line : Str → Str → Parsed (Option (PressureKind × PressureLine f))
  read_line contents line = do found ← parse_kind contents line; read_kind f found

  one_line :
      (contents : Str) (kind : PressureKind) (t : Shown) (line : PressureLine f)
      → Reads t line
      → read_line contents (pressure_line kind t) ≡ ok (some (kind, line))
  unfolding parse_kind
  one_line contents kind t line h =
      rw
        (split_spaced (word_of kind) (map token (equations t)) (word_of-IsWord kind)
          (equations-IsWord t line h))
        (rw (kind_read contents kind t) (rw (line_read contents t line h)))

  abbrev entries_of : Lines → List (Option (PressureKind × PressureLine f))
  entries_of ls = map (λ (l : PressureKind × (Shown × PressureLine f)). some (l.0, l.1.1)) ls

  every_line :
      (contents : Str) (ls : Lines)
      → AllRead ls
      → collect (map (read_line contents) (lines_of ls)) ≡ ok (entries_of ls)
  every_line contents [] h = refl
  every_line contents ((kind, (t, line)) ∷ ls) (hl, h) =
      rw (one_line contents kind t line hl, every_line contents ls h)

  lines_of-IsLine : (ls : Lines) → AllRead ls → All IsLine (lines_of ls)
  lines_of-IsLine [] h = tt
  lines_of-IsLine ((kind, (t, line)) ∷ ls) (hl, h) = (
    spaced-IsLine (word_of kind) (map token (equations t)) (word_of-IsWord kind)
        (equations-IsWord t line hl),
    lines_of-IsLine ls h,
  )

  lines_of-filled : (ls : Lines) → All (λ l. is_blank l ≡ false) (lines_of ls)
  lines_of-filled [] = tt
  lines_of-filled ((kind, (t, line)) ∷ ls) = (
    spaced-filled (word_of kind) (map token (equations t)) (word_of-IsWord kind),
    lines_of-filled ls,
  )

  lines_read :
      (ls : Lines)
      → AllRead ls
      → parse_lines f (unlines (lines_of ls))
        ≡ ok (from_iter (filter_map (λ entry. entry) (entries_of ls)))
  lines_read ls h =
      unfold parse_lines in
      rw (filled_lines-unlines (lines_of ls) (lines_of-IsLine ls h) (lines_of-filled ls))
        (rw (every_line (unlines (lines_of ls)) ls h))

  -- A line for some tasks, and on most kernels one for all.
  abbrev pub two_lines : Shown × PressureLine f → Option (Shown × PressureLine f) → Lines
  two_lines first none = (some_kind, first) ∷ []
  two_lines first (some second) = (some_kind, first) ∷ (full_kind, second) ∷ []

  abbrev pub pressure_file : Shown × PressureLine f → Option (Shown × PressureLine f) → Str
  pressure_file first second = unlines (lines_of (two_lines first second))

  abbrev pub full_of : Option (Shown × PressureLine f) → Option (PressureLine f)
  full_of none = none
  full_of (some second) = some second.1

  -- A pressure file is read back as the kernel writes it, with or without the line for all tasks, where
  -- the texts of the averages are words that are read as percentages and the totals fit.
  pub parse_pressure-pressure_file :
      (first : Shown × PressureLine f) (second : Option (Shown × PressureLine f))
      → AllRead (two_lines first second)
      → parse_pressure f (pressure_file first second)
        ≡ ok (record { some_line = first.1; full = full_of second })
  unfolding parse_pressure kind_index from_iter
  parse_pressure-pressure_file first none h = rw (lines_read (two_lines first none) h)
  parse_pressure-pressure_file first (some second) h =
      rw (lines_read (two_lines first (some second)) h)
