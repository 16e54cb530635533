-- ===== src/Cpuset/IdList/Sound.antt =====
-- What a list that was parsed holds.
use sakai.Base.{
  ◌==◌, All, ok, collect, >>=-Passes, Result-cases, ℕ, ◌≤◌, ◌≡◌, subst, inl, inr, true, Option,
  none, some, List, [], ◌∷◌, map, arith,
}
use sakai.Num.{parse_unsigned, u32_max}
use sakai.Num.Exact.{parse_unsigned_iff}
use sakai.Str.{Str, split, trim, split_once}
use sakai.Cpuset.IdList.{
  IdRange, IdList, id_number, id_range, is_ascending, ranges_of, list_of, parse_ids, bounds,
}

abbrev pub IsRange : IdRange → Type 0
IsRange r = (r.start ≤ r.last) × (r.last ≤ u32_max)

module _ (raw field part : Str) where
  id_number-le : (text : Str) (n : ℕ) → id_number raw field part text ≡ ok n → n ≤ u32_max
  unfolding id_number
  id_number-le text n h = elim (Result-cases (parse_unsigned u32_max text)) [
    | inl (m, e) ↦ ground (arith, (parse_unsigned_iff u32_max text m).0 e)
    | inr (x, e) ↦ ground arith
  ]

  both_ends : (o : Option (Str × Str)) (s l : ℕ) → bounds raw field part o ≡ ok (s, l) → l ≤ u32_max
  both_ends none s l h =
      let (id, e, same) = >>=-Passes (id_number raw field part part) _ h in
      ground (arith, id_number-le part id e)
  both_ends (some (start, last)) s l h =
      let (s', e, rest) = >>=-Passes (id_number raw field part start) _ h in
      let (l', e', same) = >>=-Passes (id_number raw field part last) _ rest in
      ground (arith, id_number-le last l' e')

  id_range-IsRange : (r : IdRange) → id_range raw field part ≡ ok r → IsRange r
  unfolding id_range
  id_range-IsRange r h =
      let (ends, e, same) = >>=-Passes (bounds raw field part (split_once b'-' part)) _ h in
      ground (arith, both_ends (split_once b'-' part) ends.0 ends.1 e)

collect-IsRange :
    (raw field : Str) (parts : List Str) (rs : List IdRange)
    → collect (map (id_range raw field) parts) ≡ ok rs
    → All IsRange rs
collect-IsRange raw field [] rs h = let e : [] ≡ rs = cc in subst (All IsRange) e tt
collect-IsRange raw field (part ∷ parts) rs h =
    let (r, e, more) = >>=-Passes (id_range raw field part) _ h in
    let (rest, e', same) = >>=-Passes (collect (map (id_range raw field) parts)) _ more in
    let both : All IsRange (r ∷ rest) =
      (id_range-IsRange raw field part r e, collect-IsRange raw field parts rest e') in
    let e : r ∷ rest ≡ rs = cc in subst (All IsRange) e both

ranges_of-IsRange :
    (raw field text : Str) (rs : List IdRange) → ranges_of raw field text ≡ ok rs → All IsRange rs
ranges_of-IsRange raw field [] rs h =
    let e : [] ≡ rs = unfold ranges_of in cc in subst (All IsRange) e tt
ranges_of-IsRange raw field (c ∷ text) rs h =
    collect-IsRange raw field (split (λ c. c == b',') (c ∷ text)) rs (unfold ranges_of in h)

list_of-ranges :
    (raw field text : Str) (rs : List IdRange) (l : IdList)
    → list_of raw field text rs ≡ ok l
    → (rs ≡ l.ranges) × (is_ascending rs ≡ true)
unfolding list_of
list_of-ranges raw field text rs l h = ground arith

-- A list that is accepted has ranges from a start to a last id that is not below it, of 32 bits, in
-- ascending order and without overlap.
pub parse_ids_sound :
    (raw field : Str) (l : IdList)
    → parse_ids raw field ≡ ok l
    → All IsRange l.ranges × (is_ascending l.ranges ≡ true)
unfolding parse_ids
parse_ids_sound raw field l h =
    let (rs, e, rest) = >>=-Passes (ranges_of raw field (trim raw)) _ h in
    let (same, good) = list_of-ranges raw field (trim raw) rs l rest in
    (subst (All IsRange) same (ranges_of-IsRange raw field (trim raw) rs e), rw (← same) good)
