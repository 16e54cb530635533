-- ===== src/Handle/Fallback.antt =====
-- Which candidate is opened, and which error is returned.
use sakai.Base.{
  ok, err, Result-cases, ◌≡◌, refl, sym, subst, ◌⊎◌, inl, inr, Option, none, some, List, [], ◌∷◌,
}
use sakai.Handle.Discovery.{try_each, open_candidates}
use sakai.Paths.{PathBuf}
use sakai.Os.{Failure, not_cgroup_v2}
use sakai.Locate.{CgroupPath}
use sakai.Handle.{Fallible}

module _ {S T : Type 0} (opener : PathBuf → S → Fallible T × S) where
  -- The candidates are tried in turn: each fails but the last of them, which opens.
  pub data Opens : List CgroupPath → S → T → S → Type 0 where
    here :
        {c : CgroupPath} {cs : List CgroupPath} {s : S} {v : T}
        → (opener c.path s).0 ≡ ok v
        → Opens (c ∷ cs) s v (opener c.path s).1
    later :
        {c : CgroupPath} {cs : List CgroupPath} {s s' : S} {v : T} (e : Failure)
        → (opener c.path s).0 ≡ err e
        → Opens cs (opener c.path s).1 v s'
        → Opens (c ∷ cs) s v s'

  -- Every candidate fails, with these errors.
  pub data Fails : List CgroupPath → S → List Failure → S → Type 0 where
    none_left : {s : S} → Fails [] s [] s
    fails :
        {c : CgroupPath} {cs : List CgroupPath} {s s' : S} (e : Failure) (es : List Failure)
        → (opener c.path s).0 ≡ err e
        → Fails cs (opener c.path s).1 es s'
        → Fails (c ∷ cs) s (e ∷ es) s'

  abbrev pub first_error : List Failure → Failure
  first_error [] = not_cgroup_v2
  first_error (e ∷ es) = e

  try_each-Opens :
      (first : Option Failure) (cs : List CgroupPath) (s s' : S) (v : T)
      → Opens cs s v s'
      → try_each opener first cs s ≡ (ok v, s')
  try_each-Opens first _ s _ v (here e) = rw (e, try_each)
  try_each-Opens first _ s s' v (later {c = c} {cs = cs} x e o) =
      rw (e, try_each) (try_each-Opens _ cs (opener c.path s).1 s' v o)

  try_each-later :
      (x : Failure) (cs : List CgroupPath) (s s' : S) (es : List Failure)
      → Fails cs s es s'
      → try_each opener (some x) cs s ≡ (err x, s')
  try_each-later x _ s _ _ none_left = refl
  try_each-later x _ s s' _ (fails {c = c} {cs = cs} e es h f) =
      rw (h, try_each) (try_each-later x cs (opener c.path s).1 s' es f)

  try_each-Fails :
      (cs : List CgroupPath) (s s' : S) (es : List Failure)
      → Fails cs s es s'
      → try_each opener none cs s ≡ (err (first_error es), s')
  try_each-Fails _ s _ _ none_left = refl
  try_each-Fails _ s s' _ (fails {c = c} {cs = cs} e es h f) =
      rw (h, try_each) (try_each-later e cs (opener c.path s).1 s' es f)

  -- One of the two is the case.
  Opens-or-Fails :
      (cs : List CgroupPath) (s : S)
      → ((v : T) × (s' : S) × Opens cs s v s') ⊎ ((es : List Failure) × (s' : S) × Fails cs s es s')
  Opens-or-Fails [] s = inr ([], s, none_left)
  Opens-or-Fails (c ∷ cs) s = elim (Result-cases (opener c.path s).0) [
    | inl (v, e) ↦ inl (v, (opener c.path s).1, here e)
    | inr (x, e) ↦ elim (Opens-or-Fails cs (opener c.path s).1) [
      | inl (v, s', o) ↦ inl (v, s', later x e o)
      | inr (es, s', f) ↦ inr (x ∷ es, s', fails x es e f)
    ]
  ]

  -- A value of the first candidate that opens, or the error of the first when all fail.
  abbrev pub Returns : List CgroupPath → S → Fallible T → S → Type 0
  Returns cs s (ok v) s' = Opens cs s v s'
  Returns cs s (err e) s' = (es : List Failure) × Fails cs s es s' × (e ≡ first_error es)

  -- The candidates are tried in turn. The first that opens is returned, after those before it failed,
  -- and none behind it is tried; otherwise every candidate was tried and failed, and the error is that
  -- of the first, or that this is no cgroup v2 if there was none.
  pub open_candidates-Returns :
      (cs : List CgroupPath) (s : S)
      → Returns cs s (open_candidates opener cs s).0 (open_candidates opener cs s).1
  unfolding open_candidates
  open_candidates-Returns cs s = elim (Opens-or-Fails cs s) [
    | inl (v, s', o) ↦
        subst (λ (x : Fallible T × S). Returns cs s x.0 x.1) (sym (try_each-Opens none cs s s' v o))
          o
    | inr (es, s', f) ↦
        subst (λ (x : Fallible T × S). Returns cs s x.0 x.1) (sym (try_each-Fails cs s s' es f))
          (es, f, refl)
  ]
