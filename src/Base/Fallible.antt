-- ===== src/Base/Fallible.antt =====
-- Rust's `Result`, its `?` as the bind of a `do` block, and the iterator adaptors that stop at the
-- first error: `collect` into a `Result`, and `try_fold`.
use mathlib.Core.Path.{◌≡◌, refl, ap}
use mathlib.Core.Option.{Option, none, some}
use mathlib.Core.List.{List, [], ◌∷◌}
use mathlib.Core.Logic.{◌⊎◌, inl, inr}

pub data Result {ℓ} (E : Type 0) (A : Type ℓ) : Type ℓ where
  ok : A → Result E A
  err : E → Result E A

-- `?`: what follows gets the value, and an error ends the function.
module _ {ℓ κ} {E : Type 0} {A : Type ℓ} {B : Type κ} where
  infixl 5 ◌>>=◌
  abbrev pub ◌>>=◌ : Result E A → (A → Result E B) → Result E B
  m >>= next = elim m [ ok v ↦ next v | err problem ↦ err problem ]

module _ {κ} {E : Type 0} {B : Type κ} where
  infixl 5 ◌>>◌
  abbrev pub ◌>>◌ : Result E (Unit {0}) → Result E B → Result E B
  first >> second = first >>= (λ done. second)

abbrev pub map_ok {ℓ κ} : {E : Type 0} {A : Type ℓ} {B : Type κ} → (A → B) → Result E A → Result E B
map_ok f (ok a) = ok (f a)
map_ok f (err e) = err e

abbrev pub map_err {ℓ} : {E F : Type 0} {A : Type ℓ} → (E → F) → Result E A → Result F A
map_err f (ok a) = ok a
map_err f (err e) = err (f e)

abbrev pub ok_or {ℓ} : {E : Type 0} {A : Type ℓ} → Option A → E → Result E A
ok_or none e = err e
ok_or (some a) e = ok a

-- `Option::and_then`
abbrev pub and_then {ℓ κ} : {A : Type ℓ} {B : Type κ} → Option A → (A → Option B) → Option B
and_then none next = none
and_then (some a) next = next a

-- `Option<Result>::transpose`
abbrev pub transpose {ℓ} : {E : Type 0} {A : Type ℓ} → Option (Result E A) → Result E (Option A)
transpose none = ok none
transpose (some (ok a)) = ok (some a)
transpose (some (err e)) = err e

-- `iter.collect::<Result<Vec<_>, _>>()`: the first error, or all the values.
abbrev pub collect {ℓ} : {E : Type 0} {A : Type ℓ} → List (Result E A) → Result E (List A)
collect [] = ok []
collect (r ∷ rs) = do a ← r; as' ← collect rs; ok (a ∷ as')

module _ {ℓ κ} {E : Type 0} {A : Type ℓ} {B : Type κ} where
  -- `iter.try_fold(s, f)`
  abbrev pub try_fold : (B → A → Result E B) → B → List A → Result E B
  try_fold f s [] = ok s
  try_fold f s (x ∷ xs) = f s x >>= λ s'. try_fold f s' xs

module _ {ℓ κ} {E : Type 0} {A : Type ℓ} {B : Type κ} where
  -- The first step has a value, with which the next one returns `v`.
  abbrev pub Passes : Result E A → (A → Result E B) → B → Type (ℓ ⊔ κ)
  Passes first next v = (x : A) × (first ≡ ok x) × (next x ≡ ok v)

  -- What a chain of steps returns went through each of them.
  pub >>=-Passes :
      {v : B} (first : Result E A) (next : A → Result E B)
      → (first >>= next) ≡ ok v
      → Passes first next v
  >>=-Passes (err problem) next done = cc
  >>=-Passes (ok x) next done = (x, refl, done)

pub Result-cases {ℓ} :
    {E : Type 0} {A : Type ℓ} (r : Result E A) → ((a : A) × (r ≡ ok a)) ⊎ ((e : E) × (r ≡ err e))
Result-cases (ok a) = inl (a, refl)
Result-cases (err e) = inr (e, refl)

pub ok-eq {ℓ} : {E : Type 0} {A : Type ℓ} {a b : A} → Path (Result E A) (ok a) (ok b) → a ≡ b
ok-eq {a = a} h = ap (λ r. elim r [ ok x ↦ x | err e ↦ a ]) h

-- A function on the result of what follows is one on the result of the whole.
pub map_ok->>= {ℓ κ ι} :
    {E : Type 0} {A : Type ℓ} {B : Type κ} {C : Type ι} (g : B → C) (first : Result E A)
    (next : A → Result E C) (next' : A → Result E B)
    → ((a : A) → next a ≡ map_ok g (next' a))
    → (first >>= next) ≡ map_ok g (first >>= next')
map_ok->>= g (ok a) next next' h = h a
map_ok->>= g (err e) next next' h = refl

-- Where a conversion gives a value, there was one.
pub map_err-eq-ok {ℓ} :
    {E F : Type 0} {A : Type ℓ} (f : E → F) (r : Result E A) {a : A} → map_err f r ≡ ok a → r ≡ ok a
map_err-eq-ok f (ok b) h = ap ok (ok-eq h)
map_err-eq-ok f (err e) h = cc

pub ok_or-eq-ok {ℓ} :
    {E : Type 0} {A : Type ℓ} (o : Option A) (e : E) {a : A} → ok_or o e ≡ ok a → o ≡ some a
ok_or-eq-ok none e h = cc
ok_or-eq-ok (some b) e h = ap some (ok-eq h)

pub map_err-ok :
    {E F A : Type 0} (f : E → F) (r : Result E A) {x : A} → map_err f r ≡ ok x → r ≡ ok x
map_err-ok f (ok y) h = cc
map_err-ok f (err e) h = cc
