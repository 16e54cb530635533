-- ===== src/Release/Retained/RoundTrip.antt =====
-- A candidate is read back as it was prepared: xtask/src/release.rs.
use sakai.Base.{
  Result, ok, map_err, >>=-Passes, ok-eq, ok_or-eq-ok, ◌≡◌, refl, sym, ap, ◌∙◌, false, Option, some,
  List,
}
use sakai.Http.{io_fault, Attempted}
use sakai.Os.{IoError}
use sakai.Release.Notes.{release_notes}
use sakai.Release.Package.{
  Output, archive_name, checksum, archive_path, Workspace, package_candidate,
}
use sakai.Release.Package.Verified.{package_candidate-IsPackaged}
use sakai.Release.Registry.{Candidate}
use sakai.Release.Version.{Semver, stable_version}
use sakai.Release.Retained.{
  dist, manifest, notes_path, dist_path, Files, read_file, update, write_file, copy_file,
  CandidateJson, candidate, prepare,
}
use sakai.Str.Equal.{str_eq_iff, str_eq_refl}
use sakai.Str.{Str, codes, str_eq}

write_file-eq :
    (files : Files) (path text : Str) {g : Files}
    → write_file files path text ≡ ok g
    → update files path text ≡ g
write_file-eq files path text h =
    let (done, e, e') = >>=-Passes (map_err io_fault (files.writable path)) _ h in ok-eq e'

copy_file-eq :
    (files : Files) (from to : Str) {g : Files}
    → copy_file files from to ≡ ok g
    → (text : Str) × (files.contents from ≡ some text) × (update files to text ≡ g)
copy_file-eq files from to h =
    let (text, e, e') = >>=-Passes (read_file files from) _ h in
    (text, ok_or-eq-ok _ _ e, write_file-eq files to text e')

-- The archive stands beside the two other files.
dist_path-ne :
    (archive version : Str)
    → archive ≡ archive_name version
    → (str_eq (dist_path archive) manifest ≡ false)
      × (str_eq (dist_path archive) notes_path ≡ false)
unfolding str_eq
dist_path-ne archive version e = rw e (refl, refl)

update-same : (files : Files) (path text : Str) → (update files path text).contents path ≡ some text
update-same files path text = rw (str_eq_refl path) refl

update-other :
    (files : Files) (p path text : Str)
    → str_eq p path ≡ false
    → (update files path text).contents p ≡ files.contents p
update-other files p path text h = rw h refl

-- Commands that see the files, among them `sha256sum`, which answers by the contents of a file.
abbrev pub Run : Type 0
Run = Files → Str → List Str → Result IoError Output

abbrev pub SumsContents : Run → (Str → Attempted Str) → Type 0
SumsContents run digest =
    (files : Files) (path text : Str)
    → files.contents path ≡ some text
    → checksum (run files) path ≡ digest text

module _ (semver : Semver) (json : CandidateJson) (run : Run) (digest : Str → Attempted Str) where
  -- The files hold the manifest and the archive of the candidate.
  candidate-retained :
      (c : Candidate) (v : semver.Version) (files : Files) (archive : Str)
      → SumsContents run digest
      → json.from_str (json.to_string c) ≡ some c
      → files.contents manifest ≡ some (json.to_string c)
      → files.contents (dist_path c.archive) ≡ some archive
      → stable_version semver c.tag ≡ ok v
      → semver.to_string v ≡ c.version
      → c.archive ≡ archive_name c.version
      → digest archive ≡ ok c.sha256
      → candidate semver json (run files) files ≡ ok c
  unfolding candidate
  candidate-retained c v files archive sums same written copied stable version name sum =
      rw (written, same, stable)
        (rw ((str_eq_iff (semver.to_string v) c.version).1 version) (
          rw ((str_eq_iff c.archive (archive_name c.version)).1 name)
            (rw (sums files (dist_path c.archive) archive copied, sum, str_eq_refl c.sha256) refl)))

  -- What `prepare` writes is read back by the later steps: the candidate that was packaged, if JSON
  -- reads a candidate back as it was written and the checksum of a file is that of its contents.
  pub prepare-candidate :
      (w : Workspace semver) (tag : Option Str) (files files' : Files)
      → SumsContents run digest
      → ((c : Candidate) → json.from_str (json.to_string c) ≡ some c)
      → w.run ≡ run files
      → prepare semver json w tag files ≡ ok files'
      → (c : Candidate) × (package_candidate semver w tag ≡ ok c)
        × (candidate semver json (run files') files' ≡ ok c)
  unfolding prepare
  prepare-candidate w tag files files' sums same runs h =
      let (c, e1, h1) = >>=-Passes (package_candidate semver w tag) _ h in
      let (changelog, e2, h2) = >>=-Passes (read_file files (codes "sakai/CHANGELOG.md")) _ h1 in
      let (notes, e3, h3) = >>=-Passes (release_notes changelog c.version) _ h2 in
      let (directory, e4, h4) = >>=-Passes (map_err io_fault (files.writable dist)) _ h3 in
      let (metadata, e5, h5) = >>=-Passes w.metadata _ h4 in
      let (copied, e6, h6) =
        >>=-Passes (copy_file files (archive_path semver metadata c.archive) (dist_path c.archive))
          _ h5 in
      let (noted, e7, h7) = >>=-Passes (write_file copied notes_path notes) _ h6 in
      let (archive, g1, g2) = copy_file-eq files _ _ e6 in
      let g3 = write_file-eq copied notes_path notes e7 in
      let g4 = write_file-eq noted manifest (json.to_string c) h7 in
      let (metadata', v, p1, p2, p3, p4, p5) = package_candidate-IsPackaged semver w tag c e1 in
      let (other, other') = dist_path-ne c.archive c.version p4 in
      let sum : digest archive ≡ ok c.sha256 =
        sym (sums files (archive_path semver metadata c.archive) archive g1)
        ∙ ap (λ r. checksum r (archive_path semver metadata c.archive)) (sym runs)
        ∙ ap (λ m. checksum w.run (archive_path semver m c.archive)) (ok-eq (sym e5 ∙ p1))
        ∙ p5 in
      let kept : files'.contents (dist_path c.archive) ≡ some archive =
        ap (λ (f : Files). f.contents (dist_path c.archive)) (sym g4)
        ∙ update-other noted (dist_path c.archive) manifest (json.to_string c) other
        ∙ ap (λ (f : Files). f.contents (dist_path c.archive)) (sym g3)
        ∙ update-other copied (dist_path c.archive) notes_path notes other'
        ∙ ap (λ (f : Files). f.contents (dist_path c.archive)) (sym g2)
        ∙ update-same files (dist_path c.archive) archive in
      let written : files'.contents manifest ≡ some (json.to_string c) =
        ap (λ (f : Files). f.contents manifest) (sym g4)
        ∙ update-same noted manifest (json.to_string c) in
      (c, e1, candidate-retained c v files' archive sums (same c) written kept p2 p3 p4 sum)
