-- ===== src/Release/Version.antt =====
-- Release tags, xtask/src/release.rs.
use sakai.Base.{
  if◌then◌else◌, ok, err, ◌>>=◌, ok_or, >>=-Passes, ◌≡◌, refl, ◌↔◌, Bool, true, Option, some, ◌∷◌,
  arith,
}
use sakai.Str.Equal.{str_eq_iff, str_eq_refl}
use sakai.Http.{version_fault, message, Attempted}
use sakai.Str.{Str, codes, str_eq, strip_prefix}

-- `semver`: versions with their print, parse and equality, and whether both the pre-release and the
-- build part are empty.
pub record Semver : Type 1 where
  pub Version : Type 0
  pub parse : Str → Option Version
  pub to_string : Version → Str
  pub is_plain : Version → Bool
  pub eq : Version → Version → Bool

module _ (semver : Semver) where
  -- `Release::stable_version`
  unfoldable pub stable_version : Str → Attempted semver.Version
  unfolding strip_prefix str_eq
  stable_version tag = do
    text ← ok_or (strip_prefix (codes "v") tag) (message (codes "release tag must start with v"))
    version ← ok_or (semver.parse text) version_fault
    if semver.is_plain version
        then (if str_eq tag (b'v' ∷ semver.to_string version)
            then ok version
            else err (message (codes "release tag must use canonical SemVer")))
        else err (message (codes "only stable release versions are supported"))

  abbrev IsCanonical : Str → semver.Version → Type 0
  IsCanonical tag version =
      (tag ≡ b'v' ∷ semver.to_string version)
      × (semver.parse (semver.to_string version) ≡ some version)
      × (semver.is_plain version ≡ true)

  accepted-IsCanonical :
      (tag : Str) (version : semver.Version)
      → stable_version tag ≡ ok version
      → IsCanonical tag version
  unfolding stable_version
  accepted-IsCanonical tag version h =
      let (text, stripped, h') = >>=-Passes (ok_or (strip_prefix (codes "v") tag) _) _ h in
      let (v, parsed, h'') = >>=-Passes (ok_or (semver.parse text) version_fault) _ h' in
      ground (arith, str_eq_iff tag (b'v' ∷ semver.to_string v))

  -- A tag is accepted just when it is `v` and the print of a version without pre-release and build
  -- parts, which is read back from that print: each version has one tag.
  pub stable_version_iff :
      (tag : Str) (version : semver.Version)
      → (stable_version tag ≡ ok version) ↔ (
          (tag ≡ b'v' ∷ semver.to_string version)
          × (semver.parse (semver.to_string version) ≡ some version)
          × (semver.is_plain version ≡ true))
  unfolding stable_version
  stable_version_iff tag version = (
    accepted-IsCanonical tag version,
    λ (e, p, plain). rw e (rw (p, plain, str_eq_refl (b'v' ∷ semver.to_string version)) refl),
  )

  -- The version of an accepted tag prints as the tag behind its `v`.
  pub stable_version-to_string :
      (text : Str) (version : semver.Version)
      → stable_version (b'v' ∷ text) ≡ ok version
      → semver.to_string version ≡ text
  stable_version-to_string text version h =
      let (same, parsed, plain) = accepted-IsCanonical (b'v' ∷ text) version h in cc
