-- ===== src/Release/Package.antt =====
-- Packaging a release candidate, xtask/src/release.rs.
pub mod Verified
use sakai.Base.{
  leb, ◌==◌, if◌then◌else◌, length, is_empty, filter, all, Result, ok, err, ◌>>=◌, ◌>>◌, map_err,
  ok_or, ℕ, Bool, true, false, not, ◌&&◌, ◌||◌, Option, none, some, List, [], ◌∷◌, ◌++◌,
}
use sakai.Http.{io_fault, message, Attempted}
use sakai.Os.{IoError}
use sakai.Release.Registry.{Candidate}
use sakai.Release.Version.{Semver, stable_version}
use sakai.Str.{Str, codes, str_eq, is_whitespace, split, trim, is_blank}

-- `anyhow::ensure!`
abbrev pub ensure : Bool → Str → Attempted (Unit {0})
ensure true text = ok tt
ensure false text = err (message text)

-- `std::process::Output`: whether the command succeeded, its output as UTF-8 if it is that, and the
-- text of the failure.
pub record Output : Type 0 where
  pub success : Bool
  pub stdout : Option Str
  pub diagnostics : Str

-- `u8::is_ascii_hexdigit`
abbrev pub is_hex_digit : ℕ → Bool
is_hex_digit c = leb b'0' c && leb c b'9' || (leb b'a' c && leb c b'f' || leb b'A' c && leb c b'F')

-- `str::split_whitespace`, and the first part.
abbrev pub first_word : Str → Option Str
first_word text = first (filter (λ t. not (is_empty t)) (split is_whitespace text))
  where
    first : List Str → Option Str
    first [] = none
    first (t ∷ ts) = some t

abbrev pub archive_name : Str → Str
archive_name version = codes "sakai-" ++ (version ++ codes ".crate")

module _ (run : Str → List Str → Result IoError Output) where
  -- `Release::command`
  unfoldable pub command : Str → List Str → Attempted Str
  command program arguments = do
    output ← map_err io_fault (run program arguments)
    ensure output.success (program ++ (codes " failed: " ++ output.diagnostics))
    ok_or output.stdout (message (codes "invalid utf-8 sequence"))

  -- `Release::checksum`
  unfoldable pub checksum : Str → Attempted Str
  unfolding command split is_whitespace
  checksum path = do
    output ← command (codes "sha256sum") (path ∷ [])
    digest ← ok_or (first_word output) (message (codes "missing SHA-256 checksum"))
    ensure (length digest == 64 && all is_hex_digit digest) (codes "invalid SHA-256 checksum")
    ok digest

module _ (semver : Semver) where
  pub record Package : Type 0 where
    pub name : Str
    pub version : semver.Version

  -- `cargo_metadata::Metadata`
  pub record Metadata : Type 0 where
    pub workspace_root : Str
    pub target_directory : Str
    pub packages : List Package

  -- `metadata.target_directory.join("package").join(archive)`
  abbrev pub archive_path : Metadata → Str → Str
  archive_path metadata archive = metadata.target_directory ++ (codes "/package/" ++ archive)

  -- `metadata.packages.iter().find(|package| package.name == …)`
  unfoldable pub find_package : Str → List Package → Option Package
  unfolding str_eq
  find_package name [] = none
  find_package name (p ∷ ps) =
      let rest = find_package name ps in if str_eq p.name name then some p else rest

  -- The checkout: what the commands and Cargo answer.
  pub record Workspace : Type 0 where
    pub metadata : Attempted Metadata
    pub current_dir : Result IoError Str
    pub run : Str → List Str → Result IoError Output
    -- whether `cargo` with these arguments exits with success
    pub cargo : List Str → Result IoError Bool

  module _ (w : Workspace) where
    abbrev pub git_status : Attempted Str
    git_status = command w.run (codes "git") (codes "status" ∷ codes "--porcelain" ∷ [])

    abbrev pub git_head : Attempted Str
    git_head = command w.run (codes "git") (codes "rev-parse" ∷ codes "HEAD" ∷ [])

    abbrev pub git_tagged : Str → Attempted Str
    git_tagged tag =
        command w.run (codes "git")
          (codes "rev-parse" ∷ (codes "refs/tags/" ++ (tag ++ codes "^{commit}")) ∷ [])

    abbrev pub git_is_ancestor : Attempted Str
    git_is_ancestor =
        command w.run (codes "git")
          (codes "merge-base" ∷ codes "--is-ancestor" ∷ codes "HEAD" ∷ codes "origin/main" ∷ [])

    -- The match on the tag that is required.
    unfoldable pub check_tag : Option Str → Str → Str → Attempted (Unit {0})
    unfolding stable_version str_eq trim command
    check_tag none tag_name commit = ok tt
    check_tag (some tag) tag_name commit = do
      stable ← stable_version semver tag
      ensure (str_eq tag tag_name) (codes "tag does not match the workspace version")
      tagged_commit ← git_tagged tag
      ensure (str_eq (trim tagged_commit) commit) (codes "checkout is not the tagged commit")
      ancestor ← git_is_ancestor
      ok tt

    abbrev pub cargo_succeeds : List Str → Str → Attempted (Unit {0})
    cargo_succeeds arguments text = do
      success ← map_err io_fault (w.cargo arguments)
      ensure success text

    -- The guards before the archive is built: the package and the commit.
    unfoldable pub checked_source : Option Str → Attempted (Metadata × Package × Str)
    unfolding check_tag find_package is_blank
    checked_source tag = do
      metadata ← w.metadata
      directory ← map_err io_fault w.current_dir
      ensure (str_eq directory metadata.workspace_root)
          (codes "run release tasks from the workspace root")
      status ← git_status
      ensure (is_blank status) (codes "release candidates require a clean Git checkout")
      rust ←
          ok_or (find_package (codes "sakai") metadata.packages)
            (message (codes "missing sakai package"))
      stable ← stable_version semver (b'v' ∷ semver.to_string rust.version)
      python ←
          ok_or (find_package (codes "sakai-python") metadata.packages)
            (message (codes "missing Python package"))
      ensure (semver.eq rust.version python.version)
          (codes "Rust and Python versions must stay synchronized")
      head ← git_head
      check_tag tag (b'v' ∷ semver.to_string rust.version) (trim head)
      ok (metadata, rust, trim head)

    -- `Release::package`
    unfoldable pub package_candidate : Option Str → Attempted Candidate
    unfolding checked_source checksum
    package_candidate tag = do
      (metadata, rust, commit) ← checked_source tag
      cargo_succeeds
          (codes "publish"
            ∷ codes "--package"
            ∷ codes "sakai"
            ∷ codes "--dry-run"
            ∷ codes "--locked"
            ∷ [])
          (codes "Cargo publishing dry run failed")
      cargo_succeeds (codes "package" ∷ codes "--package" ∷ codes "sakai" ∷ codes "--locked" ∷ [])
          (codes "Cargo packaging failed")
      sha256 ← checksum w.run (archive_path metadata (archive_name (semver.to_string rust.version)))
      ok (record {
        version = semver.to_string rust.version;
        tag = b'v' ∷ semver.to_string rust.version;
        commit = commit;
        archive = archive_name (semver.to_string rust.version);
        sha256 = sha256;
      })
