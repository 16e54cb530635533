-- ===== src/Io/Device/Lines.antt =====
-- What `Device::parse_lines` reads of a file as the kernel writes it.
use sakai.Base.{
  All, ok, err, ◌>>=◌, map_ok, collect, ◌≤◌, ◌≡◌, refl, ◌≢◌, false, List, [], ◌∷◌, map,
}
use sakai.Spaced.{
  spaced, token, IsEquation, IsWord-append, tokens-IsWord, split_spaced, spaced-IsLine,
  spaced-filled,
}
use sakai.Str.{Str, is_whitespace, split_ascii_whitespace, is_blank}
use sakai.Str.Once.{split_once-append}
use sakai.Str.Lines.{IsLine, unlines}
use sakai.Num.{u32_max, print}
use sakai.Error.{Parsed}
use sakai.Words.{IsWord, filled_lines-unlines, print-IsWord, word-All}
use sakai.BTreeMap.{from_iter}
use sakai.Parse.{KeyedFields, new_fields}
use sakai.Parse.Keyed.{Pairs}
use sakai.Io.Device.{equation, parse_device_lines, of_line}
use sakai.Io.Device.RoundTrip.{show_device, parse_device-show_device}
use sakai.BTreeMap.Order.{str_ord}
use sakai.Io.Device.Order.{Device, device_ord}

abbrev pub device_line : Device × Pairs → Str
device_line entry = spaced (show_device entry.0) (map token entry.1)

abbrev pub device_file : List (Device × Pairs) → Str
device_file entries = unlines (map device_line entries)

-- A device of 32-bit numbers, and at least one equation.
abbrev pub IsDeviceEntry : Device × Pairs → Type 0
IsDeviceEntry entry =
    (entry.0.major ≤ u32_max) × (entry.0.minor ≤ u32_max) × (entry.1 ≢ []) × All IsEquation entry.1

show_device-IsWord : (d : Device) → IsWord (show_device d)
show_device-IsWord d =
    IsWord-append (print d.major) b':' (print d.minor) (print-IsWord d.major)
      (unfold is_whitespace in refl) (word-All (print d.minor) (print-IsWord d.minor))

pub equations_read :
    (raw : Str) (kvs : Pairs)
    → All IsEquation kvs
    → collect (map (equation raw) (map token kvs)) ≡ ok kvs
unfolding equation
equations_read raw [] h = refl
equations_read raw (kv ∷ kvs) (hk, h) =
    rw (split_once-append b'=' kv.0 kv.1 hk.1 refl, equations_read raw kvs h)

module _ {T : Type 0} (raw : Str) (parse : KeyedFields → Parsed T) where
  -- The parse of one device's equations, with the device.
  abbrev pub of_entry : Device × Pairs → Parsed (Device × T)
  of_entry entry =
      map_ok (λ v. (entry.0, v)) (parse (record { raw = raw; values = from_iter entry.1 }))

  line_read :
      (entry : Device × Pairs)
      → IsDeviceEntry entry
      → of_line raw parse (split_ascii_whitespace (device_line entry)) ≡ of_entry entry
  unfolding new_fields
  line_read (d, []) h = absurd (h.2 refl)
  line_read (d, kv ∷ kvs) h =
      rw
        (split_spaced (show_device d) (map token (kv ∷ kvs)) (show_device-IsWord d)
          (tokens-IsWord (kv ∷ kvs) h.3))
        (rw (parse_device-show_device raw d h.0 h.1) (
          rw (equations_read raw (kv ∷ kvs) h.3)
            (both (parse (record { raw = raw; values = from_iter (kv ∷ kvs) })))))
    where
      both :
          (r : Parsed T)
          → Path
              (Parsed (Device × T))
              (◌>>=◌ {B = Device × T} r (λ v. ok (d, v)))
              (map_ok (λ v. (d, v)) r)
      both (ok v) = refl
      both (err e) = refl

  lines_read :
      (entries : List (Device × Pairs))
      → All IsDeviceEntry entries
      → collect
          (map (λ line. of_line raw parse (split_ascii_whitespace line)) (map device_line entries))
        ≡ collect (map of_entry entries)
  lines_read [] h = refl
  lines_read (entry ∷ entries) (he, h) = rw (line_read entry he, lines_read entries h)

file-IsLine :
    (entries : List (Device × Pairs))
    → All IsDeviceEntry entries
    → All IsLine (map device_line entries)
file-IsLine [] h = tt
file-IsLine ((d, kvs) ∷ entries) (he, h) = (
  spaced-IsLine (show_device d) (map token kvs) (show_device-IsWord d) (tokens-IsWord kvs he.3),
  file-IsLine entries h,
)

file-filled :
    (entries : List (Device × Pairs)) → All (λ l. is_blank l ≡ false) (map device_line entries)
file-filled [] = tt
file-filled ((d, kvs) ∷ entries) =
    (spaced-filled (show_device d) (map token kvs) (show_device-IsWord d), file-filled entries)

-- A file with a device and its equations on each line is read as the map of the devices, each with what
-- the parser makes of the map of its own equations, and the first error of the parser is the result.
pub parse_device_lines-device_file :
    {T : Type 0} (parse : KeyedFields → Parsed T) (entries : List (Device × Pairs))
    → All IsDeviceEntry entries
    → parse_device_lines (device_file entries) parse
      ≡ map_ok from_iter (collect (map (of_entry (device_file entries) parse) entries))
unfolding parse_device_lines
parse_device_lines-device_file {T} parse entries h =
    rw
      (filled_lines-unlines (map device_line entries) (file-IsLine entries h) (file-filled entries))
      (rw (lines_read (device_file entries) parse entries h)
        (both (collect (map (of_entry (device_file entries) parse) entries))))
  where
    both : (r : Parsed (List (Device × T))) → (r >>= λ es. ok (from_iter es)) ≡ map_ok from_iter r
    both (ok es) = refl
    both (err e) = refl
