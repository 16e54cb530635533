-- ===== src/Release/Package/Verified.antt =====
-- What a packaged candidate is: xtask/src/release.rs.
use sakai.Base.{
  ◌==◌, length, all, Result, ok, map_err, ok_or, >>=-Passes, ok-eq, ok_or-eq-ok, ◌≡◌, refl, sym, ap,
  ◌∙◌, subst, Bool, true, false, ◌&&◌, Option, some, List, [], ◌∷◌, arith,
}
use sakai.Release.Registry.{Candidate}
use sakai.Http.{io_fault}
use sakai.Os.{IoError}
use sakai.Release.Version.{Semver, stable_version, stable_version-to_string}
use sakai.Release.Package.{
  ensure, Output, is_hex_digit, first_word, archive_name, command, checksum, Package, Metadata,
  archive_path, find_package, Workspace, git_status, git_head, git_tagged, check_tag,
  cargo_succeeds, checked_source, package_candidate,
}
use sakai.Str.Equal.{str_eq_iff}
use sakai.Str.{Str, codes, str_eq, trim, is_blank}

ensure-true : (b : Bool) (text : Str) {done : Unit {0}} → ensure b text ≡ ok done → b ≡ true
ensure-true true text h = refl
ensure-true false text h = cc

-- A SHA-256 digest in hexadecimal digits.
abbrev pub IsDigest : Str → Type 0
IsDigest digest = (length digest ≡ 64) × (all is_hex_digit digest ≡ true)

checksum-IsDigest :
    (run : Str → List Str → Result IoError Output) (path : Str) {digest : Str}
    → checksum run path ≡ ok digest
    → IsDigest digest
unfolding checksum
checksum-IsDigest run path h =
    let (output, e1, h1) = >>=-Passes (command run (codes "sha256sum") (path ∷ [])) _ h in
    let (d, e2, h2) = >>=-Passes (ok_or (first_word output) _) _ h1 in
    let (done, e3, h3) = >>=-Passes (ensure (length d == 64 && all is_hex_digit d) _) _ h2 in
    rw (← ok-eq h3) (digest_parts d (ensure-true _ _ e3))
  where
    digest_parts : (d : Str) → (length d == 64 && all is_hex_digit d) ≡ true → IsDigest d
    digest_parts d h = ground arith

module _ (semver : Semver) (w : Workspace semver) where
  -- The tag is that of the version, and names the commit of the checkout.
  abbrev IsTagged : Str → Str → Str → Type 0
  IsTagged tag tag_name commit =
      (tag ≡ tag_name)
      × (tagged : Str) × (git_tagged semver w tag ≡ ok tagged)
      × (trim tagged ≡ commit)

  check_tag-IsTagged :
      (tag tag_name commit : Str) {done : Unit {0}}
      → check_tag semver w (some tag) tag_name commit ≡ ok done
      → IsTagged tag tag_name commit
  unfolding check_tag
  check_tag-IsTagged tag tag_name commit h =
      let (v, e1, h1) = >>=-Passes (stable_version semver tag) _ h in
      let (d1, e2, h2) = >>=-Passes (ensure (str_eq tag tag_name) _) _ h1 in
      let (tagged, e3, h3) = >>=-Passes (git_tagged semver w tag) _ h2 in
      let (d2, e4, h4) = >>=-Passes (ensure (str_eq (trim tagged) commit) _) _ h3 in
      (
        (str_eq_iff tag tag_name).0 (ensure-true _ _ e2),
        tagged,
        e3,
        (str_eq_iff (trim tagged) commit).0 (ensure-true _ _ e4),
      )

  -- A clean checkout of the commit, whose package has a stable version that is also Python's.
  abbrev IsSource : Option Str → Metadata semver → Package semver → Str → Type 0
  IsSource tag metadata rust commit =
      (status : Str) × (head : Str) × (v : semver.Version) × (python : Package semver) × (w.metadata
        ≡ ok metadata)
      × (git_status semver w ≡ ok status)
      × (is_blank status ≡ true)
      × (git_head semver w ≡ ok head)
      × (commit ≡ trim head)
      × (stable_version semver (b'v' ∷ semver.to_string rust.version) ≡ ok v)
      × (find_package semver (codes "sakai-python") metadata.packages ≡ some python)
      × (semver.eq rust.version python.version ≡ true)
      × (check_tag semver w tag (b'v' ∷ semver.to_string rust.version) commit ≡ ok tt)

  checked_source-IsSource :
      (tag : Option Str) {metadata : Metadata semver} {rust : Package semver} {commit : Str}
      → checked_source semver w tag ≡ ok (metadata, rust, commit)
      → IsSource tag metadata rust commit
  unfolding checked_source
  checked_source-IsSource tag h =
      let (metadata, e1, h1) = >>=-Passes w.metadata _ h in
      let (directory, e2, h2) = >>=-Passes (map_err io_fault w.current_dir) _ h1 in
      let (d1, e3, h3) = >>=-Passes (ensure (str_eq directory metadata.workspace_root) _) _ h2 in
      let (status, e4, h4) = >>=-Passes (git_status semver w) _ h3 in
      let (d2, e5, h5) = >>=-Passes (ensure (is_blank status) _) _ h4 in
      let (rust, e6, h6) =
        >>=-Passes (ok_or (find_package semver (codes "sakai") metadata.packages) _) _ h5 in
      let (v, e7, h7) =
        >>=-Passes (stable_version semver (b'v' ∷ semver.to_string rust.version)) _ h6 in
      let (python, e8, h8) =
        >>=-Passes (ok_or (find_package semver (codes "sakai-python") metadata.packages) _) _ h7 in
      let (d3, e9, h9) = >>=-Passes (ensure (semver.eq rust.version python.version) _) _ h8 in
      let (head, e10, h10) = >>=-Passes (git_head semver w) _ h9 in
      let (d4, e11, h11) =
        >>=-Passes (check_tag semver w tag (b'v' ∷ semver.to_string rust.version) (trim head)) _
          h10 in
      let source : IsSource tag metadata rust (trim head) = (
        status,
        head,
        v,
        python,
        e1,
        e4,
        ensure-true _ _ e5,
        e10,
        refl,
        e7,
        ok_or-eq-ok _ _ e8,
        ensure-true _ _ e9,
        e11,
      ) in
      subst
        (λ (parts : Metadata semver × Package semver × Str). IsSource tag parts.0 parts.1 parts.2)
        (ok-eq h11) source

  -- What a candidate for a tag is: the tag is that of its version, which is stable; the checkout is
  -- clean, its commit is that of the candidate and that which the tag names; the archive has the name
  -- of the version, and the checksum is a digest.
  abbrev pub IsVerified : Str → Candidate → Type 0
  IsVerified tag c =
      (status : Str) × (head : Str) × (tagged : Str) × (v : semver.Version) × (c.tag ≡ tag)
      × (tag ≡ b'v' ∷ c.version)
      × (stable_version semver tag ≡ ok v)
      × (git_status semver w ≡ ok status)
      × (is_blank status ≡ true)
      × (git_head semver w ≡ ok head)
      × (c.commit ≡ trim head)
      × (git_tagged semver w tag ≡ ok tagged)
      × (c.commit ≡ trim tagged)
      × (c.archive ≡ archive_name c.version)
      × IsDigest c.sha256

  -- A candidate that is packaged for a tag is verified.
  pub package_candidate-IsVerified :
      (tag : Str) (c : Candidate) → package_candidate semver w (some tag) ≡ ok c → IsVerified tag c
  unfolding package_candidate
  package_candidate-IsVerified tag c h =
      let ((metadata, rust, commit), e1, h1) =
        >>=-Passes (checked_source semver w (some tag)) _ h in
      let (d1, e2, h2) = >>=-Passes (cargo_succeeds semver w _ _) _ h1 in
      let (d2, e3, h3) = >>=-Passes (cargo_succeeds semver w _ _) _ h2 in
      let (sha256, e4, h4) = >>=-Passes (checksum w.run _) _ h3 in
      let (status, head, v, python, f0, f1, f2, f3, f4, f5, f6, f7, f8) =
        checked_source-IsSource (some tag) e1 in
      let (same, tagged, g1, g2) = check_tag-IsTagged tag _ commit f8 in
      subst (IsVerified tag) (ok-eq h4) (
        status,
        head,
        tagged,
        v,
        sym same,
        same,
        ap (stable_version semver) same ∙ f5,
        f1,
        f2,
        f3,
        f4,
        g1,
        sym g2,
        refl,
        checksum-IsDigest w.run _ e4,
      )

  -- Where the archive of a candidate is, its checksum, and the version of its tag.
  abbrev pub IsPackaged : Candidate → Type 0
  IsPackaged c =
      (metadata : Metadata semver) × (v : semver.Version) × (w.metadata ≡ ok metadata)
      × (stable_version semver c.tag ≡ ok v)
      × (semver.to_string v ≡ c.version)
      × (c.archive ≡ archive_name c.version)
      × (checksum w.run (archive_path semver metadata c.archive) ≡ ok c.sha256)

  pub package_candidate-IsPackaged :
      (tag : Option Str) (c : Candidate) → package_candidate semver w tag ≡ ok c → IsPackaged c
  unfolding package_candidate
  package_candidate-IsPackaged tag c h =
      let ((metadata, rust, commit), e1, h1) = >>=-Passes (checked_source semver w tag) _ h in
      let (d1, e2, h2) = >>=-Passes (cargo_succeeds semver w _ _) _ h1 in
      let (d2, e3, h3) = >>=-Passes (cargo_succeeds semver w _ _) _ h2 in
      let (sha256, e4, h4) = >>=-Passes (checksum w.run _) _ h3 in
      let (status, head, v, python, f0, f1, f2, f3, f4, f5, f6, f7, f8) =
        checked_source-IsSource tag e1 in
      subst IsPackaged (ok-eq h4)
        (metadata, v, f0, f5, stable_version-to_string semver _ v f5, refl, e4)
