-- ===== src/Examples/Releasing.antt =====
-- A release of version 0.1.0, with commands that answer as in its checkout.
use sakai.Base.{
  ◌==◌, if◌then◌else◌, all, All, Result, ok, ℕ, zero, suc, ◌≡◌, refl, true, false, not, ◌&&◌, none,
  some, List, [], ◌∷◌, ◌++◌, arith,
}
use sakai.Os.{IoError}
use sakai.Str.Lines.{IsLine, unlines}
use sakai.Release.Package.Verified.{IsVerified, package_candidate-IsVerified}
use sakai.Release.Registry.{Candidate}
use sakai.Release.Package.{Output, Metadata, Workspace, package_candidate}
use sakai.Release.Notes.{
  starts_with, join_lines, heading_of, release_notes, Follows, Noted, release_notes-section,
}
use sakai.Str.{Str, codes, str_eq, trim}
use sakai.Release.Version.{Semver}

abbrev pub semver : Semver
semver = record {
  Version = Unit;
  parse = λ text. if str_eq text (codes "0.1.0") then some tt else none;
  to_string = λ version. codes "0.1.0";
  is_plain = λ version. true;
  eq = λ a b. true;
}

abbrev changelog_before : List Str
changelog_before = codes "# Changelog" ∷ codes "## [Unreleased]" ∷ []

abbrev changelog_body : List Str
changelog_body = [] ∷ codes "- First release." ∷ [] ∷ []

abbrev changelog_after : List Str
changelog_after = codes "## [0.0.1]" ∷ codes "- Draft." ∷ []

abbrev heading : Str
heading = codes "## [0.1.0] - 2026-01-01"

abbrev pub changelog : Str
changelog = unlines (changelog_before ++ heading ∷ (changelog_body ++ changelog_after))

is_line : (l : Str) → all (λ c. not (c == b'\n') && not (c == b'\r')) l ≡ true → IsLine l
is_line [] h = tt
is_line (c ∷ l) h = ((ground arith, ground arith), is_line l (ground arith))

is_lines : All IsLine (changelog_before ++ heading ∷ (changelog_body ++ changelog_after))
is_lines = (
  is_line (codes "# Changelog") refl,
  (
    is_line (codes "## [Unreleased]") refl,
    (
      is_line heading refl,
      (
        is_line [] refl,
        (
          is_line (codes "- First release.") refl,
          (
            is_line [] refl,
            (is_line (codes "## [0.0.1]") refl, (is_line (codes "- Draft.") refl, tt)),
          ),
        ),
      ),
    ),
  ),
)

is_before : All (λ line. starts_with (heading_of (codes "0.1.0")) line ≡ false) changelog_before
unfolding starts_with
is_before = (refl, (refl, tt))

is_heading : starts_with (heading_of (codes "0.1.0")) heading ≡ true
unfolding starts_with
is_heading = refl

is_body : All (λ line. starts_with (codes "## ") line ≡ false) changelog_body
unfolding starts_with
is_body = (refl, (refl, (refl, tt)))

follows : Follows changelog_after
unfolding starts_with
follows = refl

release_notes-section_example :
    Noted
      (codes "0.1.0")
      (trim (join_lines changelog_body))
      (release_notes changelog (codes "0.1.0"))
release_notes-section_example =
    release_notes-section (codes "0.1.0") changelog_before heading changelog_body changelog_after
      is_lines is_before is_heading is_body follows

abbrev pub zeros : ℕ → Str
zeros zero = []
zeros (suc n) = b'0' ∷ zeros n

abbrev prints : Str → Result IoError Output
prints text = ok (record { success = true; stdout = some text; diagnostics = [] })

abbrev git : List Str → Result IoError Output
git [] = prints []
git (argument ∷ arguments) =
    prints (if str_eq argument (codes "status") then [] else codes "c0ffee\n")

-- The sum of every file is the same.
abbrev pub run : Str → List Str → Result IoError Output
run program arguments =
    if str_eq program (codes "sha256sum")
    then prints (zeros 64 ++ codes "  sakai-0.1.0.crate\n")
    else git arguments

abbrev metadata : Metadata semver
metadata = record {
  workspace_root = codes "/sakai";
  target_directory = codes "/sakai/target";
  packages =
      record { name = codes "sakai"; version = tt }
      ∷ record { name = codes "sakai-python"; version = tt }
      ∷ [];
}

abbrev pub workspace : Workspace semver
workspace = record {
  metadata = ok metadata;
  current_dir = ok (codes "/sakai");
  run = run;
  cargo = λ arguments. ok true;
}

abbrev pub packaged : Candidate
packaged = record {
  version = codes "0.1.0";
  tag = codes "v0.1.0";
  commit = codes "c0ffee";
  archive = codes "sakai-0.1.0.crate";
  sha256 = zeros 64;
}

package_candidate-packaged :
    package_candidate semver workspace (some (codes "v0.1.0")) ≡ ok packaged
unfolding package_candidate
package_candidate-packaged = refl

package_candidate-IsVerified_example : IsVerified semver workspace (codes "v0.1.0") packaged
package_candidate-IsVerified_example =
    package_candidate-IsVerified semver workspace (codes "v0.1.0") packaged
      package_candidate-packaged
