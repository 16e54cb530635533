-- ===== src/Hugetlb/PageSize/RoundTrip.antt =====
-- Page sizes and their labels.
use sakai.Base.{
  leb, ◌==◌, if◌then◌else◌, ==_iff, Bool-cases, ok, err, ok-eq, ℕ, zero, suc, ◌/◌, ◌%◌, ◌^◌, ◌≤◌,
  ◌<◌, ◌≡◌, refl, sym, ap, subst, ◌↔◌, inl, inr, Bool, true, false, not, ◌&&◌, ◌||◌, Option, none,
  some, arith,
}
use sakai.Num.{parse_unsigned, u64_max}
use sakai.Str.Equal.{str_eq_iff}
use sakai.Error.{Parsed}
use sakai.Str.{Str, codes, str_eq, strip_suffix}
use sakai.Hugetlb.PageSize.{
  PageSize, kibibyte, mebibyte, gibibyte, power_of_two_below, is_power_of_two, try_new_size,
  show_size, size_of, parse_size, to_option, bytes_of, if_shown, if_bytes, if_kibibytes,
  if_mebibytes, if_gibibytes,
}

power_of_two_below_sound :
    (fuel n : ℕ) → power_of_two_below fuel n ≡ true → (k : ℕ) × (k < fuel) × (n ≡ 2 ^ k)
unfolding power_of_two_below
power_of_two_below_sound zero n h = cc
power_of_two_below_sound (suc fuel) n h = elim (Bool-cases (n == 1)) [
  | inl one ↦ (0, omega arith, (==_iff n 1).0 one)
  | inr more ↦ elim (Bool-cases (n % 2 == 0)) [
    | inr odd ↦ cc (rw (more, odd) at h)
    | inl even ↦
        let (k, small, e) = power_of_two_below_sound fuel (n / 2) (rw (more, even) at h) in
        (suc k, omega arith, grind (arith, (==_iff (n % 2) 0).0 even))
  ]
]

-- Whether a size is read back from its label.
abbrev back : ℕ → Bool
back n = elim (parse_size (show_size (record { size = n }))) [ ok s ↦ s.size == n | err e ↦ false ]

abbrev all_below : (ℕ → Bool) → ℕ → Bool
all_below p zero = true
all_below p (suc n) = p n && all_below p n

all_below-lt : (p : ℕ → Bool) (n k : ℕ) → all_below p n ≡ true → k < n → p k ≡ true
all_below-lt p zero k h small = absurd (omega arith)
all_below-lt p (suc n) k h small = elim (Bool-cases (k == n)) [
  | inl same ↦ rw ((==_iff k n).0 same) (ground arith)
  | inr other ↦ all_below-lt p n k (ground arith) (ground arith)
]

every_size : all_below (λ k. leb k 9 || back (2 ^ k)) 64 ≡ true
unfolding parse_size size_of show_size try_new_size is_power_of_two
every_size = refl

if_shown-ok :
    (label : Str) (o : Option PageSize) (s : PageSize)
    → if_shown label o ≡ ok s
    → (o ≡ some s) × (show_size s ≡ label)
if_shown-ok label none s h = cc
if_shown-ok label (some t) s h = elim (Bool-cases (str_eq (show_size t) label)) [
  | inr other ↦ cc (rw other at h)
  | inl same ↦
      let shown = (str_eq_iff (show_size t) label).0 same in
      let e : t ≡ s = ok-eq (rw same at h) in (ap some e, subst (λ u. show_size u ≡ label) e shown)
]

-- What the predicate of the type accepts.
abbrev IsValid : PageSize → Type 0
IsValid s = try_new_size s.size ≡ some s

if_some : (b : Bool) (x s : PageSize) → (if b then some x else none) ≡ some s → (b ≡ true) × (x ≡ s)
if_some true x s h = ground arith
if_some false x s h = cc

try_new_size-some :
    (n : ℕ) (s : PageSize)
    → try_new_size n ≡ some s
    → ((leb 1024 n && is_power_of_two n) ≡ true) × (record { size = n } ≡ s)
try_new_size-some n s h =
    if_some (leb 1024 n && is_power_of_two n) (record { size = n }) s (unfold try_new_size in h)

size_same : (n : ℕ) (s : PageSize) → try_new_size n ≡ some s → s.size ≡ n
size_same n s h = sym (ap (λ x. x.size) (try_new_size-some n s h).1)

if_bytes-ok :
    (label : Str) (o : Option ℕ) (s : PageSize)
    → if_bytes label o ≡ ok s
    → (show_size s ≡ label) × IsValid s
if_bytes-ok label none s h = cc
if_bytes-ok label (some n) s h =
    let (e, shown) = if_shown-ok label (try_new_size n) s h in
    (shown, subst (λ m. try_new_size m ≡ some s) (sym (size_same n s e)) e)

module _ (label : Str) (s : PageSize) where
  abbrev Accepted : Type 0
  Accepted = (show_size s ≡ label) × IsValid s

  size_of-ok : (number : Str) (unit : ℕ) → size_of label number unit ≡ ok s → Accepted
  unfolding size_of
  size_of-ok number unit =
      if_bytes-ok label (bytes_of label (to_option (parse_unsigned u64_max number)) unit) s

  if_kibibytes-ok : (o : Option Str) → if_kibibytes label o ≡ ok s → Accepted
  if_kibibytes-ok none h = cc
  if_kibibytes-ok (some number) h = size_of-ok number kibibyte h

  if_mebibytes-ok :
      (o : Option Str) (rest : Parsed PageSize)
      → (rest ≡ ok s → Accepted)
      → if_mebibytes label o rest ≡ ok s
      → Accepted
  if_mebibytes-ok none rest k h = k h
  if_mebibytes-ok (some number) rest k h = size_of-ok number mebibyte h

  if_gibibytes-ok :
      (o : Option Str) (rest : Parsed PageSize)
      → (rest ≡ ok s → Accepted)
      → if_gibibytes label o rest ≡ ok s
      → Accepted
  if_gibibytes-ok none rest k h = k h
  if_gibibytes-ok (some number) rest k h = size_of-ok number gibibyte h

  parse_size-ok : parse_size label ≡ ok s → Accepted
  parse_size-ok h =
      let kb = strip_suffix (codes "KB") label in
      let mb = strip_suffix (codes "MB") label in
      let rest = if_mebibytes label mb (if_kibibytes label kb) in
      if_gibibytes-ok (strip_suffix (codes "GB") label) rest
        (if_mebibytes-ok mb (if_kibibytes label kb) (if_kibibytes-ok kb)) (unfold parse_size in h)

both_true : (a b : Bool) → (a && b) ≡ true → (a ≡ true) × (b ≡ true)
both_true true b h = (refl, h)
both_true false b h = cc

power_of :
    (n : ℕ) (s : PageSize)
    → try_new_size n ≡ some s
    → (k : ℕ) × (k < 64) × (n ≡ 2 ^ k) × (leb 1024 n ≡ true)
power_of n s h =
    let both = both_true (leb 1024 n) (is_power_of_two n) (try_new_size-some n s h).0 in
    let (k, small, e) = power_of_two_below_sound 64 n (unfold is_power_of_two in both.1) in
    (k, small, e, both.0)

parse_size-back :
    (n : ℕ)
    → back n ≡ true
    → parse_size (show_size (record { size = n })) ≡ ok (record { size = n })
parse_size-back n h = go (parse_size (show_size (record { size = n }))) h
  where
    go :
        (r : Parsed PageSize)
        → elim r [ ok s ↦ s.size == n | err e ↦ false ] ≡ true
        → r ≡ ok (record { size = n })
    go (ok s) h = ap ok (ap (λ m. record { size = m }) ((==_iff s.size n).0 h))
    go (err e) h = cc

-- A power of two from 1024 up that fits in 64 bits.
abbrev pub IsPageSize : PageSize → Type 0
IsPageSize s = (k : ℕ) × (10 ≤ k) × (k < 64) × (s.size ≡ 2 ^ k)

large_exponents : all_below (λ k. leb 10 k || not (leb 1024 (2 ^ k))) 64 ≡ true
large_exponents = refl

IsValid-IsPageSize : (s : PageSize) → IsValid s → IsPageSize s
IsValid-IsPageSize s valid =
    let (k, small, e, big) = power_of s.size s valid in
    let large : (leb 10 k || not (leb 1024 (2 ^ k))) ≡ true =
      all_below-lt (λ k. leb 10 k || not (leb 1024 (2 ^ k))) 64 k large_exponents small in
    (k, at_least k (subst (λ n. leb 1024 n ≡ true) e big) large, small, e)
  where
    at_least :
        (k : ℕ) → leb 1024 (2 ^ k) ≡ true → (leb 10 k || not (leb 1024 (2 ^ k))) ≡ true → 10 ≤ k
    at_least k big h = ground (arith, rw big at h)

parse_size-show_size : (s : PageSize) → IsPageSize s → parse_size (show_size s) ≡ ok s
parse_size-show_size s (k, large, small, e) =
    let checked : (leb k 9 || back (2 ^ k)) ≡ true =
      all_below-lt (λ k. leb k 9 || back (2 ^ k)) 64 k every_size small in
    parse_size-back s.size
      (subst (λ n. back n ≡ true) (sym e) (only_back (back (2 ^ k)) k large checked))
  where
    only_back : (b : Bool) (k : ℕ) → 10 ≤ k → (leb k 9 || b) ≡ true → b ≡ true
    only_back b k large h = ground arith

-- A text is accepted as a page size just when it is the label of that size, and the size one that the
-- type allows, a power of two from 1024 up that fits in 64 bits: each size has one label, and no other
-- text stands for it.
pub parse_size_iff :
    (label : Str) (s : PageSize)
    → (parse_size label ≡ ok s) ↔ ((show_size s ≡ label) × IsPageSize s)
parse_size_iff label s = (
  λ h. let (shown, valid) = parse_size-ok label s h in (shown, IsValid-IsPageSize s valid),
  λ h. subst (λ l. parse_size l ≡ ok s) h.0 (parse_size-show_size s h.1),
)
