-- ===== src/Hugetlb/Readers/Names.antt =====
-- The files of one page size pass the guard of reading: sakai/src/cgroup/v2/hugetlb.rs.
use sakai.Base.{
  leb, ◌==◌, Bool-cases, All, All-append, ℕ, ◌/◌, ◌≡◌, refl, inl, inr, true, false, [], ◌∷◌, ◌++◌,
  arith,
}
use sakai.Num.Print.{print-All}
use sakai.Num.{is_digit, print}
use sakai.Handle.{single_normal}
use sakai.Str.Tokens.{split_self}
use sakai.Paths.{components}
use sakai.Num.Value.{IsDigit}
use sakai.Hugetlb.PageSize.{PageSize, kibibyte, mebibyte, gibibyte, show_size, file_name}
use sakai.Str.{Str, codes, str_eq}

abbrev IsNoSlash : ℕ → Type 0
IsNoSlash c = (c == b'/') ≡ false

digits-IsNoSlash : (s : Str) → All IsDigit s → All IsNoSlash s
unfolding is_digit
digits-IsNoSlash [] h = tt
digits-IsNoSlash (c ∷ s) (hc, h) = (ground arith, digits-IsNoSlash s h)

labelled : (n : ℕ) (unit : Str) → All IsNoSlash unit → All IsNoSlash (print n ++ unit)
labelled n unit h = All-append IsNoSlash (print n) unit (digits-IsNoSlash (print n) (print-All n)) h

show_size-IsNoSlash : (size : PageSize) → All IsNoSlash (show_size size)
unfolding show_size
show_size-IsNoSlash size = elim (Bool-cases (leb gibibyte size.size)) [
  | inl big ↦ rw big (labelled (size.size / gibibyte) (codes "GB") (refl, (refl, tt)))
  | inr rest ↦ rw rest (elim (Bool-cases (leb mebibyte size.size)) [
    | inl middle ↦ rw middle (labelled (size.size / mebibyte) (codes "MB") (refl, (refl, tt)))
    | inr small ↦ rw small (labelled (size.size / kibibyte) (codes "KB") (refl, (refl, tt)))
  ])
]

file_name-IsNoSlash :
    (size : PageSize) (suffix : Str)
    → All IsNoSlash suffix
    → All IsNoSlash (show_size size ++ (codes "." ++ suffix))
file_name-IsNoSlash size suffix h =
    All-append IsNoSlash (show_size size) (codes "." ++ suffix) (show_size-IsNoSlash size) (refl, h)

pub file_name-single :
    (size : PageSize) (suffix : Str)
    → All IsNoSlash suffix
    → single_normal (components (file_name size suffix)) ≡ true
unfolding components file_name str_eq
file_name-single size suffix h =
    rw
      (split_self (λ c. c == b'/') (codes "hugetlb." ++ (show_size size ++ (codes "." ++ suffix)))
        (
          refl,
          (refl, (refl, (refl, (refl, (refl, (refl, (refl, file_name-IsNoSlash size suffix h))))))),
        ))
      refl
