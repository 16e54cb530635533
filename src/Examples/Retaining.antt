-- ===== src/Examples/Retaining.antt =====
-- The steps of the release of version 0.1.0 behind its packaging.
use sakai.Base.{
  ◌==◌, if◌then◌else◌, ok, and_then, ℕ, zero, suc, ◌≡◌, refl, Bool, true, false, Option, none, some,
  [], ◌∷◌,
}
use sakai.Release.Github.Twice.{KeepsReleases, github_release-twice}
use sakai.Release.Github.{
  NewRelease, ExistingRelease, Server, created, matching, new_release, Inputs, github_release,
}
use sakai.Release.Retained.RoundTrip.{SumsContents, prepare-candidate}
use sakai.Release.Retained.{manifest, notes_path, Files, update, CandidateJson, candidate, prepare}
use sakai.Str.Lines.{unlines}
use sakai.Release.Registry.{Candidate, Sent}
use sakai.Release.Package.{checksum, package_candidate}
use sakai.Str.{Str, codes, str_eq}
use sakai.Examples.Releasing.{semver, changelog, zeros, run, workspace, packaged}
use mathlib.Core.Option

-- JSON keeps the fields apart by zeros.
abbrev write_field : Str → Str → Str
write_field [] rest = 0 ∷ rest
write_field (c ∷ text) rest = suc c ∷ write_field text rest

abbrev read_field : Str → Option (Str × Str)
read_field [] = none
read_field (zero ∷ rest) = some ([], rest)
read_field (suc c ∷ rest) = Option.map (λ (r : Str × Str). (c ∷ r.0, r.1)) (read_field rest)

read_field-write_field : (text rest : Str) → read_field (write_field text rest) ≡ some (text, rest)
read_field-write_field [] rest = refl
read_field-write_field (c ∷ text) rest = rw (read_field-write_field text rest) refl

abbrev read_candidate : Str → Option Candidate
read_candidate text = and_then (read_field text) λ (version, text1).
    and_then (read_field text1) λ (tag, text2). and_then (read_field text2) λ (commit, text3).
      and_then (read_field text3) λ (archive, text4). and_then (read_field text4) λ (sha256, text5).
        some (record {
          version = version;
          tag = tag;
          commit = commit;
          archive = archive;
          sha256 = sha256;
        })

abbrev json : CandidateJson
json = record {
  to_string = λ c.
      write_field c.version (
        write_field c.tag (write_field c.commit (write_field c.archive (write_field c.sha256 []))));
  from_str = read_candidate;
}

json-candidate : (c : Candidate) → json.from_str (json.to_string c) ≡ some c
json-candidate c =
    rw (read_field-write_field c.version _, read_field-write_field c.tag _)
      (rw (read_field-write_field c.commit _, read_field-write_field c.archive _)
        (rw (read_field-write_field c.sha256 []) refl))

abbrev files : Files
files = record {
  contents = λ path.
      if str_eq path (codes "sakai/CHANGELOG.md")
      then some changelog
      else if str_eq path (codes "/sakai/target/package/sakai-0.1.0.crate")
      then some (codes "archive")
      else none;
  writable = λ path. ok tt;
}

abbrev noted : Files
noted =
    update (update files (codes "dist/release/sakai-0.1.0.crate") (codes "archive")) notes_path
      (codes "- First release.")

abbrev prepared : Files
prepared = update noted manifest (json.to_string packaged)

prepare-prepared : prepare semver json workspace (some (codes "v0.1.0")) files ≡ ok prepared
unfolding prepare unlines
prepare-prepared = refl

sums_contents : SumsContents (λ files. run) (λ text. ok (zeros 64))
unfolding checksum str_eq
sums_contents _ path text h = refl

prepare-candidate_example :
    (c : Candidate) × (package_candidate semver workspace (some (codes "v0.1.0")) ≡ ok c)
    × (candidate semver json run prepared ≡ ok c)
prepare-candidate_example =
    prepare-candidate semver json (λ files. run) (λ text. ok (zeros 64)) workspace
      (some (codes "v0.1.0")) files prepared sums_contents json-candidate refl prepare-prepared

-- A server that keeps the release that was posted.
abbrev text_of : Bool → ℕ
text_of b = if b then 1 else 0

abbrev release_text : NewRelease → Str
release_text release = text_of release.draft ∷ text_of release.prerelease ∷ release.body

abbrev read_release : Str → Option ExistingRelease
read_release (draft ∷ prerelease ∷ body) =
    some
      (record { body = some body; draft = some (draft == 1); prerelease = some (prerelease == 1) })
read_release _ = none

abbrev get : Option NewRelease → Str → Sent
get none tag = ok (record {
  status = record { code = 404; is_server_error = false };
  error_for_status = ok tt;
  text = ok [];
})
get (some release) tag = ok (record {
  status = record { code = 200; is_server_error = false };
  error_for_status = ok tt;
  text = ok (release_text release);
})

abbrev server : Server
server = record {
  State = Option NewRelease;
  get = get;
  post = λ state release. (ok tt, some release);
  from_json = read_release;
}

server-KeepsReleases : KeepsReleases server
server-KeepsReleases state release posted = (
  record {
    status = record { code = 200; is_server_error = false };
    error_for_status = ok tt;
    text = ok (release_text release);
  },
  release_text release,
  refl,
  refl,
  refl,
  refl,
  rw (flag release.draft, flag release.prerelease) refl,
)
  where
    flag : (b : Bool) → (text_of b == 1) ≡ b
    flag true = refl
    flag false = refl

abbrev inputs : Inputs semver
inputs = record {
  json = json;
  run = run;
  files = prepared;
  registry_json = λ text. some (record { checksum = zeros 64; yanked = false });
  registry = λ c. ok (record {
    status = record { code = 200; is_server_error = false };
    error_for_status = ok tt;
    text = ok (codes "{}");
  });
  gh_token = some (codes "token");
}

abbrev posted : Option NewRelease
posted = some (new_release packaged (codes "- First release."))

first_release : github_release semver inputs server none ≡ (ok created, posted)
unfolding github_release unlines
first_release = refl

github_release-twice_example : github_release semver inputs server posted ≡ (ok matching, posted)
github_release-twice_example =
    github_release-twice semver inputs server none posted created server-KeepsReleases first_release
