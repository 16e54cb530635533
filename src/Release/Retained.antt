-- ===== src/Release/Retained.antt =====
-- The candidate that is retained between the steps of a release, xtask/src/release.rs: written by
-- `prepare`, and read back by the later steps.
pub mod RoundTrip
use sakai.Base.{
  if◌then◌else◌, Result, ok, ◌>>=◌, ◌>>◌, map_err, ok_or, Bool, ◌&&◌, Option, some, List, ◌∷◌, ◌++◌,
}
use sakai.Http.{io_fault, json_fault, Attempted}
use sakai.Os.{enoent, IoError, os}
use sakai.Release.Notes.{release_notes}
use sakai.Release.Package.{
  ensure, Output, archive_name, checksum, archive_path, Workspace, package_candidate,
}
use sakai.Release.Registry.{Candidate}
use sakai.Release.Version.{Semver, stable_version}
use sakai.Str.{Str, codes, str_eq}

abbrev pub dist : Str
dist = codes "dist/release"

abbrev pub manifest : Str
manifest = codes "dist/release/release.json"

abbrev pub notes_path : Str
notes_path = codes "dist/release/release-notes.md"

-- `Path::new(Self::DIST).join(archive)`
abbrev pub dist_path : Str → Str
dist_path archive = dist ++ (b'/' ∷ archive)

-- The files by their paths, and whether a path can be written.
pub record Files : Type 0 where
  pub contents : Str → Option Str
  pub writable : Str → Result IoError (Unit {0})

-- `fs::read_to_string`, for files that are UTF-8.
abbrev pub read_file : Files → Str → Attempted Str
read_file files path = ok_or (files.contents path) (io_fault (os enoent))

abbrev pub update : Files → Str → Str → Files
update files path text = record files {
  contents = λ p. if str_eq p path then some text else files.contents p;
}

-- `fs::write`
abbrev pub write_file : Files → Str → Str → Attempted Files
write_file files path text = do
  done ← map_err io_fault (files.writable path)
  ok (update files path text)

-- `fs::copy`
abbrev pub copy_file : Files → Str → Str → Attempted Files
copy_file files from to = do text ← read_file files from; write_file files to text

-- `PartialEq` of `Candidate`
unfoldable pub candidate_eq : Candidate → Candidate → Bool
unfolding str_eq
candidate_eq a b =
    str_eq a.version b.version
    && (str_eq a.tag b.tag
        && (str_eq a.commit b.commit && (str_eq a.archive b.archive && str_eq a.sha256 b.sha256)))

-- `serde_json` at a candidate.
pub record CandidateJson : Type 0 where
  pub to_string : Candidate → Str
  pub from_str : Str → Option Candidate

module _ (semver : Semver) (json : CandidateJson) where
  -- `Release::candidate`
  unfoldable pub candidate : (Str → List Str → Result IoError Output) → Files → Attempted Candidate
  unfolding stable_version str_eq checksum
  candidate run files = do
    text ← read_file files manifest
    c ← ok_or (json.from_str text) json_fault
    v ← stable_version semver c.tag
    ensure (str_eq (semver.to_string v) c.version) (codes "candidate tag/version mismatch")
    ensure (str_eq c.archive (archive_name c.version)) (codes "unexpected candidate filename")
    sha256 ← checksum run (dist_path c.archive)
    ensure (str_eq sha256 c.sha256) (codes "candidate archive checksum mismatch")
    ok c

  -- `Release::prepare`, on the files that packaging left, up to the report of its output.
  unfoldable pub prepare : Workspace semver → Option Str → Files → Attempted Files
  unfolding package_candidate release_notes
  prepare w tag files = do
    c ← package_candidate semver w tag
    changelog ← read_file files (codes "sakai/CHANGELOG.md")
    notes ← release_notes changelog c.version
    directory ← map_err io_fault (files.writable dist)
    metadata ← w.metadata
    copied ← copy_file files (archive_path semver metadata c.archive) (dist_path c.archive)
    noted ← write_file copied notes_path notes
    write_file noted manifest (json.to_string c)

  -- `ReleaseCommand::Check`
  unfoldable pub check_candidate : Workspace semver → Str → Files → Attempted (Unit {0})
  unfolding candidate package_candidate candidate_eq
  check_candidate w tag files = do
    retained ← candidate w.run files
    current ← package_candidate semver w (some tag)
    ensure (candidate_eq retained current)
        (codes "repackaged archive differs from the checked candidate")
