-- ===== src/Vmtest/Run/Sound.antt =====
-- What a run over several kernels has run: xtask/src/vmtest/mod.rs and kernel.rs.
use mathlib.Core.List.{map-append}
use sakai.Str.Equal.{str_eq_iff}
use sakai.Vmtest.Run.{
  Machine, Stop, fault, of_code, Ran, Caches, with_cache, Tested, of_config, run_kernel, of_image,
  fetched, test_kernel, and_next, test_kernels,
}
use sakai.Vmtest.Image.Complete.{IsComplete, Keeps, image-Keeps}
use sakai.Vmtest.Image.{Cache, image}
use sakai.Http.{io_fault, Attempted}
use sakai.Str.{Str, str_eq}
use sakai.Os.{IoError}
use sakai.Base.{
  Bool-cases, Option-cases, All, All-append, Result, ok, err, ℕ, ◌≡◌, refl, sym, ap, ◌∙◌, subst,
  ◌⊎◌, inl, inr, Option, some, List, [], ◌∷◌, ◌++◌, map, append-nil, append_assoc,
}

run_kernel-cases :
    (m : Machine) (name : Str) (image : Option Str)
    → ((stop : Stop) × (run_kernel m name image ≡ (err stop, [])))
      ⊎ ((result : Result Stop (Unit {0})) × (run_kernel m name image
            ≡ (result, (name, image) ∷ [])))
unfolding run_kernel
run_kernel-cases m name image = by_config m.write_config m.status
  where
    by_config :
        (config : Result IoError (Unit {0})) (status : Result IoError (Option ℕ))
        → ((stop : Stop) × (of_config name image config status ≡ (err stop, [])))
          ⊎ ((result : Result Stop (Unit {0})) × (of_config name image config status
                ≡ (result, (name, image) ∷ [])))
    by_config (err e) status = inl (fault (io_fault e), refl)
    by_config (ok done) (err e) = inl (_, refl)
    by_config (ok done) (ok code) = inr (of_code code, refl)

module _ (machines : Str → Machine) where
  -- The whole body of the response to one of the attempts to download a kernel's image.
  abbrev pub IsDownloaded : Str → Str → Type 0
  IsDownloaded name text =
      IsComplete (machines name).url (machines name).clock (machines name).replies
        (machines name).environment text

  -- A kernel's image was in its cache before, or was downloaded whole.
  abbrev pub IsImage : Caches → Str → Str → Type 0
  IsImage caches name text = ((caches name).destination ≡ some text) ⊎ IsDownloaded name text

  abbrev pub Sound : Caches → Caches → Type 0
  Sound caches caches' =
      (name text : Str) → (caches' name).destination ≡ some text → IsImage caches name text

  abbrev pub Genuine : Caches → Str × Option Str → Type 0
  Genuine caches entry = (text : Str) × (entry.1 ≡ some text) × IsImage caches entry.0 text

  abbrev names_of : Ran → List Str
  names_of ran = map (λ entry. entry.0) ran

  -- What holds after the kernels of some names were to be tested.
  abbrev pub Tests : List Str → Caches → Tested → Type 0
  Tests names caches t =
      Sound caches t.1
      × All (Genuine caches) t.2
      × (rest : List Str) × (names_of t.2 ++ rest ≡ names)
      × (t.0 ≡ ok tt → rest ≡ [])

  kept-IsImage :
      (caches : Caches) (name : Str) (result : Attempted (Unit {0})) (cache : Cache)
      → Keeps
          (machines name).url
          (machines name).clock
          (machines name).replies
          (machines name).environment
          (caches name)
          (result, cache)
      → (text : Str) → cache.destination ≡ some text
      → IsImage caches name text
  kept-IsImage caches name result cache (inl (same, present)) text e = inl (sym same ∙ e)
  kept-IsImage caches name result cache (inr (absent, done, clean, whole, e', complete)) text e =
      inr (subst (IsDownloaded name) (some-eq (sym e' ∙ e)) complete)
    where
      some-eq : {a b : Str} → some a ≡ some b → a ≡ b
      some-eq h = cc

  with_cache-Sound :
      (caches : Caches) (name : Str) (cache : Cache)
      → ((text : Str) → cache.destination ≡ some text → IsImage caches name text)
      → Sound caches (with_cache caches name cache)
  with_cache-Sound caches name cache kept n text e = elim (Bool-cases (str_eq n name)) [
    | inl same ↦
        subst (λ m. IsImage caches m text) (sym ((str_eq_iff n name).0 same))
          (kept text (rw same at e))
    | inr other ↦ inl (rw other at e)
  ]

  present-text :
      (caches : Caches) (name : Str) (cache : Cache)
      → Keeps
          (machines name).url
          (machines name).clock
          (machines name).replies
          (machines name).environment
          (caches name)
          (ok tt, cache)
      → (text : Str) × (cache.destination ≡ some text)
  present-text caches name cache (inl (same, present)) = elim (Option-cases cache.destination) [
    | inl absent ↦ absurd (present refl absent)
    | inr some_text ↦ some_text
  ]
  present-text caches name cache (inr (absent, done, clean, whole, e, complete)) = (whole, e)

  test_kernel-Tests :
      (name : Str) (caches : Caches) → Tests (name ∷ []) caches (test_kernel machines name caches)
  unfolding test_kernel
  test_kernel-Tests name caches = by_image (fetched machines name (caches name)) (
      image-Keeps (machines name).url (machines name).clock (machines name).replies
        (machines name).environment (caches name))
    where
      by_image :
          (r : Attempted (Unit {0}) × Cache)
          → Keeps
              (machines name).url
              (machines name).clock
              (machines name).replies
              (machines name).environment
              (caches name)
              r
          → Tests (name ∷ []) caches (of_image machines caches name r)
      by_image (err e, cache) keeps = (
        with_cache-Sound caches name cache (kept-IsImage caches name (err e) cache keeps),
        tt,
        name ∷ [],
        refl,
        λ h. cc,
      )
      by_image (ok done, cache) keeps =
          let (text, e) = present-text caches name cache keeps in
          let sound =
            with_cache-Sound caches name cache (kept-IsImage caches name (ok tt) cache keeps) in
          let genuine = kept-IsImage caches name (ok tt) cache keeps text e in
          elim (run_kernel-cases (machines name) name cache.destination) [
            | inl (stop, none_ran) ↦ rw none_ran (sound, tt, name ∷ [], refl, λ h. cc)
            | inr (result, one_ran) ↦
                rw one_ran (sound, ((text, e, genuine), tt), [], refl, λ h. refl)
          ]

  Sound-IsImage :
      (caches caches' : Caches) (name text : Str)
      → Sound caches caches'
      → IsImage caches' name text
      → IsImage caches name text
  Sound-IsImage caches caches' name text sound (inl e) = sound name text e
  Sound-IsImage caches caches' name text sound (inr complete) = inr complete

  All-Genuine :
      (caches caches' : Caches) (ran : Ran)
      → Sound caches caches'
      → All (Genuine caches') ran
      → All (Genuine caches) ran
  All-Genuine caches caches' [] sound h = tt
  All-Genuine caches caches' ((name, image) ∷ ran) sound ((text, e, origin), h) = (
    (text, e, Sound-IsImage caches caches' name text sound origin),
    All-Genuine caches caches' ran sound h,
  )

  -- In any run over kernels, those that ran are the first of the kernels, in order, and all of them if
  -- the run succeeds; each ran on an image that was in its cache before or is the whole body of a
  -- response to one of the attempts to download it; and so is every image that the caches hold
  -- afterwards.
  pub test_kernels-Tests :
      (names : List Str) (caches : Caches) → Tests names caches (test_kernels machines names caches)
  unfolding test_kernels
  test_kernels-Tests [] caches = (λ name text e. inl e, tt, [], refl, λ h. refl)
  test_kernels-Tests (name ∷ names) caches =
      by_first (test_kernels-Tests names) (test_kernel machines name caches)
        (test_kernel-Tests name caches)
    where
      by_first :
          ((caches' : Caches) → Tests names caches' (test_kernels machines names caches'))
          → (first : Tested) → Tests (name ∷ []) caches first
          → Tests (name ∷ names) caches (and_next machines (test_kernels machines names) first)
      by_first next (err stop, caches', ran) (sound, genuine, rest, e, finished) = (
        sound,
        genuine,
        rest ++ names,
        sym (append_assoc (names_of ran) rest names) ∙ ap (λ ns. ns ++ names) e,
        λ h. cc,
      )
      by_first next (ok done, caches', ran) (sound, genuine, rest, e, finished) =
          let (sound', genuine', rest', e', finished') = next caches' in
          (
            λ n text h. Sound-IsImage caches caches' n text sound (sound' n text h),
            All-append (Genuine caches) ran _ genuine (All-Genuine caches caches' _ sound genuine'),
            rest',
            joined ran rest _ rest' (finished refl) e e',
            finished',
          )
        where
          joined :
              (ran : Ran) (rest : List Str) (more : Ran) (rest' : List Str)
              → rest ≡ []
              → names_of ran ++ rest ≡ name ∷ []
              → names_of more ++ rest' ≡ names
              → names_of (ran ++ more) ++ rest' ≡ name ∷ names
          joined ran rest more rest' none_left e e' =
              rw (map-append (λ (entry : Str × Option Str). entry.0) ran more) (
                append_assoc (names_of ran) (names_of more) rest'
                ∙ ap (λ ns. names_of ran ++ ns) e'
                ∙ ap (λ ns. ns ++ names)
                    (sym (append-nil (names_of ran))
                      ∙ sym (ap (λ ns. names_of ran ++ ns) none_left)
                      ∙ e))
