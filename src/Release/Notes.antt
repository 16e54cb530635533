-- ===== src/Release/Notes.antt =====
-- Release notes from the changelog, xtask/src/release.rs.
use sakai.Base.{
  if◌then◌else◌, is_empty, All, ok, err, ◌≡◌, refl, sym, subst, ◌≢◌, ◌⊎◌, inl, inr, Bool, true,
  false, not, Option, none, some, List, [], ◌∷◌, ◌++◌,
}
use sakai.Http.{message, Attempted}
use sakai.Str.{Str, codes, strip_prefix, lines, trim}
use sakai.Str.Lines.{IsLine, unlines, lines-unlines}

abbrev is_some_text : Option Str → Bool
is_some_text none = false
is_some_text (some text) = true

-- `str::starts_with`
unfoldable pub starts_with : Str → Str → Bool
unfolding strip_prefix
starts_with prefix text = is_some_text (strip_prefix prefix text)

-- The iterator adaptors `skip_while`, `skip(1)` and `take_while`.
unfoldable pub skip_while : (Str → Bool) → List Str → List Str
skip_while p [] = []
skip_while p (x ∷ xs) = let rest = skip_while p xs in if p x then rest else x ∷ xs

abbrev skip_one : List Str → List Str
skip_one [] = []
skip_one (x ∷ xs) = xs

unfoldable pub take_while : (Str → Bool) → List Str → List Str
take_while p [] = []
take_while p (x ∷ xs) = let rest = take_while p xs in if p x then x ∷ rest else []

-- `sections.join("\n")`
unfoldable pub join_lines : List Str → Str
join_lines [] = []
join_lines (l ∷ []) = l
join_lines (l ∷ m ∷ ls) = l ++ b'\n' ∷ join_lines (m ∷ ls)

abbrev pub heading_of : Str → Str
heading_of version = codes "## [" ++ version ++ codes "]"

abbrev pub of_section : Str → Str → Attempted Str
of_section version notes =
    if is_empty notes
    then err (message (codes "missing nonempty changelog section for " ++ version))
    else ok notes

-- `Release::release_notes`
unfoldable pub release_notes : Str → Str → Attempted Str
unfolding lines starts_with skip_while take_while join_lines trim
release_notes changelog version = of_section version (
    trim (
      join_lines (
        take_while (λ line. not (starts_with (codes "## ") line))
          (skip_one
            (skip_while (λ line. not (starts_with (heading_of version) line)) (lines changelog))))))

-- The lines behind a section: none, or the next heading first.
abbrev pub Follows : List Str → Type 0
Follows [] = Unit
Follows (line ∷ rest) = starts_with (codes "## ") line ≡ true

skip_while-append :
    (p : Str → Bool) (before : List Str) (x : Str) (rest : List Str)
    → All (λ line. p line ≡ true) before
    → p x ≡ false
    → skip_while p (before ++ x ∷ rest) ≡ x ∷ rest
unfolding skip_while
skip_while-append p [] x rest h e = rw e
skip_while-append p (y ∷ before) x rest (hy, h) e = rw (hy, skip_while-append p before x rest h e)

take_while-append :
    (body after : List Str)
    → All (λ line. starts_with (codes "## ") line ≡ false) body
    → Follows after
    → take_while (λ line. not (starts_with (codes "## ") line)) (body ++ after) ≡ body
unfolding take_while
take_while-append [] [] h f = refl
take_while-append [] (line ∷ after) h f = rw f
take_while-append (line ∷ body) after (hl, h) f = rw (hl, take_while-append body after h f)

before_heading :
    (p : Str → Bool) (ls : List Str)
    → All (λ line. p line ≡ false) ls
    → All (λ line. not (p line) ≡ true) ls
before_heading p [] h = tt
before_heading p (l ∷ ls) (hl, h) = (rw hl refl, before_heading p ls h)

-- Blank notes are an error, and any others are the result.
abbrev pub Noted : Str → Str → Attempted Str → Type 0
Noted version notes result =
    ((notes ≡ [])
      × (result ≡ err (message (codes "missing nonempty changelog section for " ++ version))))
    ⊎ ((notes ≢ []) × (result ≡ ok notes))

of_section-Noted : (version notes : Str) → Noted version notes (of_section version notes)
of_section-Noted version [] = inl (refl, refl)
of_section-Noted version (c ∷ notes) = inr (λ e. cc, refl)

module _ (version : Str) (before : List Str) (heading : Str) (body after : List Str) where
  section_read :
      All IsLine (before ++ heading ∷ (body ++ after))
      → All (λ line. starts_with (heading_of version) line ≡ false) before
      → starts_with (heading_of version) heading ≡ true
      → All (λ line. starts_with (codes "## ") line ≡ false) body
      → Follows after
      → release_notes (unlines (before ++ heading ∷ (body ++ after))) version
        ≡ of_section version (trim (join_lines body))
  unfolding release_notes
  section_read l b h bo f = rw (lines-unlines _ l) (
      rw
        (skip_while-append _ before heading (body ++ after) (before_heading _ before b) (rw h refl))
        (rw (take_while-append body after bo f)))

  -- The notes of a version are the lines from behind the first line that starts with its heading, the
  -- version in brackets behind two hashes, to the next heading of that level, or to the end, trimmed;
  -- it is the error that names the version if these are blank, and only then.
  pub release_notes-section :
      All IsLine (before ++ heading ∷ (body ++ after))
      → All (λ line. starts_with (codes "## [" ++ version ++ codes "]") line ≡ false) before
      → starts_with (codes "## [" ++ version ++ codes "]") heading ≡ true
      → All (λ line. starts_with (codes "## ") line ≡ false) body
      → Follows after
      → Noted version
          (trim (join_lines body))
          (release_notes (unlines (before ++ heading ∷ (body ++ after))) version)
  release_notes-section l b h bo f =
      subst (Noted version (trim (join_lines body))) (sym (section_read l b h bo f))
        (of_section-Noted version (trim (join_lines body)))
