-- ===== src/Str.antt =====
-- Rust's `str`, as the list of its code points, with the methods of the standard library that the
-- parsers of the crate call. A literal "max" is written `codes "max"`.
pub mod Tokens
pub mod Lines
pub mod Blank
pub mod Equal
pub mod Trim
pub mod Once
use Prim.Native.Char.{code}
use sakai.Base.{
  leb, ◌==◌, if◌then◌else◌, is_empty, filter, ℕ, String, Bool, true, false, not, ◌&&◌, ◌||◌, Option,
  none, some, List, [], ◌∷◌, map, reverse,
}
use mathlib.Core.Option

abbrev pub Str : Type 0
Str = List ℕ

abbrev pub codes : String → Str
codes String.[] = []
codes (String.◌∷◌ c s) = code c ∷ codes s

unfoldable pub str_eq : Str → Str → Bool
str_eq [] [] = true
str_eq (c ∷ s) (d ∷ t) = c == d && str_eq s t
str_eq _ _ = false

-- `u8::is_ascii_whitespace`: space, tab, line feed, form feed, carriage return.
unfoldable pub is_ascii_whitespace : ℕ → Bool
is_ascii_whitespace c = c == 32 || c == 9 || c == 10 || c == 12 || c == 13

-- `char::is_whitespace`: the Unicode property White_Space.
unfoldable pub is_whitespace : ℕ → Bool
is_whitespace c =
    c == 32
    || leb 9 c && leb c 13
    || c == 0x85
    || c == 0xa0
    || c == 0x1680
    || leb 0x2000 c && leb c 0x200a
    || c == 0x2028
    || c == 0x2029
    || c == 0x202f
    || c == 0x205f
    || c == 0x3000

-- Puts a character in front of the first part of a split.
abbrev pub cons_head : ℕ → List Str → List Str
cons_head c [] = (c ∷ []) ∷ []
cons_head c (l ∷ ls) = (c ∷ l) ∷ ls

-- `str::split` by a test on characters: always at least one part.
unfoldable pub split : (ℕ → Bool) → Str → List Str
split p [] = [] ∷ []
split p (c ∷ s) = let rest = split p s in if p c then [] ∷ rest else cons_head c rest

-- `str::split_ascii_whitespace`: the parts between whitespace that are not empty.
unfoldable pub split_ascii_whitespace : Str → List Str
unfolding split is_ascii_whitespace
split_ascii_whitespace s = filter (λ t. not (is_empty t)) (split is_ascii_whitespace s)

-- `str::split_inclusive('\n')`
unfoldable pub split_inclusive : Str → List Str
split_inclusive [] = []
split_inclusive (c ∷ s) =
    let rest = split_inclusive s in if c == b'\n' then (c ∷ []) ∷ rest else cons_head c rest

unfoldable pub strip_prefix : Str → Str → Option Str
strip_prefix [] s = some s
strip_prefix (p ∷ ps) [] = none
strip_prefix (p ∷ ps) (c ∷ s) = let rest = strip_prefix ps s in if p == c then rest else none

unfoldable pub strip_suffix : Str → Str → Option Str
unfolding strip_prefix
strip_suffix suffix s = Option.map reverse (strip_prefix (reverse suffix) (reverse s))

abbrev unwrap_or : Option Str → Str → Str
unwrap_or none d = d
unwrap_or (some s) d = s

-- What stands before the line feed loses a carriage return.
abbrev chomp_cr : Option Str → Str → Str
chomp_cr none line = line
chomp_cr (some l) line = unwrap_or (strip_suffix (b'\r' ∷ []) l) l

-- A line loses a final line feed, and then a carriage return before it.
unfoldable pub chomp : Str → Str
chomp line = chomp_cr (strip_suffix (b'\n' ∷ []) line) line

-- `str::lines`
unfoldable pub lines : Str → List Str
unfolding split_inclusive chomp strip_suffix
lines s = map chomp (split_inclusive s)

unfoldable pub trim_start : Str → Str
trim_start [] = []
trim_start (c ∷ s) = let rest = trim_start s in if is_whitespace c then rest else c ∷ s

-- `str::trim`
unfoldable pub trim : Str → Str
unfolding trim_start
trim s = reverse (trim_start (reverse (trim_start s)))

-- `line.trim().is_empty()`
unfoldable pub is_blank : Str → Bool
unfolding trim
is_blank line = is_empty (trim line)

-- `raw.lines().filter(|line| !line.trim().is_empty())`
unfoldable pub filled_lines : Str → List Str
unfolding lines is_blank is_whitespace
filled_lines raw = filter (λ line. not (is_blank line)) (lines raw)

-- `str::split_once` at a character.
unfoldable pub split_once : ℕ → Str → Option (Str × Str)
split_once p [] = none
split_once p (c ∷ s) =
    let rest = Option.map (λ (parts : Str × Str). (c ∷ parts.0, parts.1)) (split_once p s) in
    if c == p then some ([], s) else rest

-- `str::split_once` at a text.
unfoldable pub split_once_str : Str → Str → Option (Str × Str)
unfolding strip_prefix
split_once_str p [] = elim (strip_prefix p []) [ none ↦ none | some after ↦ some ([], after) ]
split_once_str p (c ∷ s) =
    let rest = Option.map (λ (parts : Str × Str). (c ∷ parts.0, parts.1)) (split_once_str p s) in
    elim (strip_prefix p (c ∷ s)) [ none ↦ rest | some after ↦ some ([], after) ]
