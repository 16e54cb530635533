-- ===== src/Io/Device/RoundTrip.antt =====
-- Device numbers as they are printed, and the order of the devices of a file.
use sakai.Base.{
  ◌==◌, All, ok, collect, >>=-Passes, ok-eq, ◌≤◌, ◌≡◌, refl, subst, false, [], ◌∷◌, ◌++◌, map,
  arith,
}
use sakai.Str.Once.{split_once-append}
use sakai.Str.{Str, split_ascii_whitespace, filled_lines}
use sakai.Num.{is_digit, u32_max, print}
use sakai.Num.Value.{IsDigit}
use sakai.Num.Print.{print-All, parse_unsigned-print}
use sakai.Error.{Parsed}
use sakai.Parse.{KeyedFields}
use sakai.BTreeMap.{BTreeMap}
use sakai.BTreeMap.Laws.{IsAscending, from_iter-IsAscending}
use sakai.Io.Device.{parse_device, device_from_str, parse_device_lines, of_line}
use sakai.Io.Device.Order.{Device, device_ord}

abbrev pub show_device : Device → Str
show_device d = print d.major ++ b':' ∷ print d.minor

no_colon : (s : Str) → All IsDigit s → All (λ c. (c == b':') ≡ false) s
unfolding is_digit
no_colon [] h = tt
no_colon (c ∷ s) (hc, h) = (ground arith, no_colon s h)

pub parse_device-show_device :
    (raw : Str) (d : Device)
    → d.major ≤ u32_max
    → d.minor ≤ u32_max
    → parse_device raw (show_device d) ≡ ok d
unfolding parse_device
parse_device-show_device raw d h k =
    rw
      (split_once-append b':' (print d.major) (print d.minor)
        (no_colon (print d.major) (print-All d.major)) refl)
      (rw (parse_unsigned-print u32_max d.major h, parse_unsigned-print u32_max d.minor k))

-- A device whose numbers have 32 bits is read back from `major:minor`.
pub device_from_str-show_device :
    (d : Device) → d.major ≤ u32_max → d.minor ≤ u32_max → device_from_str (show_device d) ≡ ok d
unfolding device_from_str
device_from_str-show_device d h k = parse_device-show_device (show_device d) d h k

-- The map of a file of device lines has the devices in the order of their numbers, and none twice.
pub parse_device_lines-IsAscending :
    {T : Type 0} (raw : Str) (parse : KeyedFields → Parsed T) (m : BTreeMap Device T)
    → parse_device_lines raw parse ≡ ok m
    → IsAscending m
unfolding parse_device_lines
parse_device_lines-IsAscending {T} raw parse m h =
    let (entries, e, same) =
      >>=-Passes
        (collect (map (λ line. of_line raw parse (split_ascii_whitespace line)) (filled_lines raw)))
        _ h in
    subst IsAscending (ok-eq same) (from_iter-IsAscending entries)
