-- ===== src/Cpuset/IdList/Members.antt =====
-- The ids of a list, in order, and the test of membership.
use sakai.Str.{Str}
use sakai.Base.{
  ltb, leb, ◌==◌, any, All, ok, ℕ, zero, suc, ◌+◌, ◌-◌, ◌≤◌, ◌≡◌, refl, ◌∙◌, Bool, true, ◌&&◌, ◌||◌,
  List, [], ◌∷◌, ◌++◌, arith,
}
use sakai.Cpuset.IdList.{IdRange, IdList, is_ascending, parse_ids, count_up, ids, contains}
use sakai.Cpuset.IdList.Sound.{IsRange, parse_ids_sound}

any-append {ℓ} :
    {A : Type ℓ} (p : A → Bool) (xs ys : List A) → any p (xs ++ ys) ≡ (any p xs || any p ys)
any-append p [] ys = refl
any-append p (x ∷ xs) ys = ground (arith, any-append p xs ys)

any-count_up : (id n s : ℕ) → any (λ x. x == id) (count_up n s) ≡ (leb s id && ltb id (s + n))
unfolding count_up
any-count_up id zero s = ground arith
any-count_up id (suc n) s = ground (arith, any-count_up id n (s + 1))

-- `contains` is membership in what `ids` lists.
pub any-ids : (rs : List IdRange) (id : ℕ) → any (λ x. x == id) (ids rs) ≡ contains rs id
unfolding ids contains
any-ids [] id = refl
any-ids (r ∷ rs) id =
    any-append (λ x. x == id) (count_up (r.last + 1 - r.start) r.start) (ids rs)
    ∙ ground (arith, any-count_up id (r.last + 1 - r.start) r.start, any-ids rs id)

-- From `low` on, each number above the one before it.
abbrev pub Ascends : ℕ → List ℕ → Type 0
Ascends low [] = Unit
Ascends low (x ∷ xs) = (low ≤ x) × Ascends (x + 1) xs

Ascends-le : (low low' : ℕ) (xs : List ℕ) → low' ≤ low → Ascends low xs → Ascends low' xs
Ascends-le low low' [] h a = tt
Ascends-le low low' (x ∷ xs) h a = (omega arith, a.1)

Ascends-count_up :
    (n s low : ℕ) (ys : List ℕ) → low ≤ s → Ascends (s + n) ys → Ascends low (count_up n s ++ ys)
unfolding count_up
Ascends-count_up zero s low ys h a = Ascends-le (s + 0) low ys (omega arith) a
Ascends-count_up (suc n) s low ys h a = (
  h,
  Ascends-count_up n (s + 1) (s + 1) ys (omega arith)
      (Ascends-le (s + suc n) (s + 1 + n) ys (omega arith) a),
)

abbrev FirstAbove : ℕ → List IdRange → Type 0
FirstAbove low [] = Unit
FirstAbove low (r ∷ rs) = low ≤ r.start

is_ascending-tail :
    (r : IdRange) (rs : List IdRange)
    → is_ascending (r ∷ rs) ≡ true
    → FirstAbove (r.last + 1) rs × (is_ascending rs ≡ true)
unfolding is_ascending
is_ascending-tail r [] h = (tt, refl)
is_ascending-tail r (s ∷ rs) h = ground arith

ids_from :
    (rs : List IdRange) (low : ℕ)
    → All IsRange rs
    → is_ascending rs ≡ true
    → FirstAbove low rs
    → Ascends low (ids rs)
unfolding ids
ids_from [] low good asc first = tt
ids_from (r ∷ rs) low (hr, good) asc first =
    let (above, asc') = is_ascending-tail r rs asc in
    Ascends-count_up (r.last + 1 - r.start) r.start low (ids rs) first (
      Ascends-le (r.last + 1) (r.start + (r.last + 1 - r.start)) (ids rs) (omega arith)
        (ids_from rs (r.last + 1) good asc' above))

first_zero : (rs : List IdRange) → FirstAbove 0 rs
first_zero [] = tt
first_zero (r ∷ rs) = omega arith

-- An accepted list gives its ids in strictly ascending order, so none twice, and contains just these.
pub parse_ids-ids :
    (raw field : Str) (l : IdList)
    → parse_ids raw field ≡ ok l
    → Ascends 0 (ids l.ranges)
      × ((id : ℕ) → any (λ x. x == id) (ids l.ranges) ≡ contains l.ranges id)
parse_ids-ids raw field l h =
    let (good, asc) = parse_ids_sound raw field l h in
    (ids_from l.ranges 0 good asc (first_zero l.ranges), any-ids l.ranges)
