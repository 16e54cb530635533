-- ===== src/Handle/Verified.antt =====
-- Every handle is a directory of a cgroup2 file system, and what the errors of opening say.
use sakai.Base.{
  ◌==◌, ==_iff, Bool-cases, Option-cases, filter_map, All, Result, ok, err, map_err, collect,
  >>=-Passes, Result-cases, ◌≡◌, subst, inl, inr, Bool, not, ◌&&◌, ◌||◌, some, List, [], ◌∷◌, arith,
}
use sakai.Paths.{PathBuf, components, join}
use sakai.Os.{
  Errno, invalid_input, IoError, os, kind, is_invalid_input, Failure, file_missing, not_supported,
  not_cgroup_v2, deleted_cgroup, parse_failure, operation, io,
}
use sakai.Str.{Str, codes, str_eq}
use sakai.Handle.{
  Kernel, Fallible, cgroup2_super_magic, Cgroup, open_directory, verified, base_of, open_path,
  explain, from_path, explain_child, is_child_name, child, kept, listed, children,
}

module _ (k : Kernel) where
  -- The file system of the directory is cgroup2, by its magic number.
  abbrev pub OnCgroup2 : Cgroup k → Type 0
  OnCgroup2 cgroup = k.f_type cgroup.directory ≡ ok cgroup2_super_magic

  verified-eq_ok :
      (directory : k.Fd) (path : PathBuf) (cgroup : Cgroup k)
      → verified k directory path ≡ ok cgroup
      → OnCgroup2 cgroup × (cgroup.path ≡ path)
  unfolding verified
  verified-eq_ok directory path cgroup h = elim (Result-cases (k.f_type directory)) [
    | inr (e, bad) ↦ cc (rw bad at h)
    | inl (magic, e) ↦ elim (Bool-cases (magic == cgroup2_super_magic)) [
      | inr other ↦ cc (rw (e, other) at h)
      | inl same ↦
          let h' : ok (record { directory = directory; path = path }) ≡ ok cgroup =
            rw (e, same) at h in
          let is_magic = (==_iff magic cgroup2_super_magic).0 same in ground (arith, e, is_magic)
    ]
  ]

  open_path-eq_ok :
      (path : PathBuf) (cgroup : Cgroup k)
      → open_path k path ≡ ok cgroup
      → OnCgroup2 cgroup × (cgroup.path ≡ path)
  unfolding open_path
  open_path-eq_ok path cgroup h =
      let (base, e, h') =
        >>=-Passes (map_err (λ x. io (os x)) (k.open_base (base_of k path).0)) _ h in
      let (directory, e', h'') = >>=-Passes (open_directory k base (base_of k path).1) _ h' in
      verified-eq_ok directory path cgroup h''

  map_err-eq_ok :
      {A : Type 0} (f : Failure → Failure) (r : Fallible A) {v : A} → map_err f r ≡ ok v → r ≡ ok v
  map_err-eq_ok f (ok v) h = h
  map_err-eq_ok f (err e) h = cc

  -- A cgroup that is opened by its path is a directory of a cgroup2 file system and keeps that path.
  pub from_path-OnCgroup2 :
      (path : PathBuf) (cgroup : Cgroup k)
      → from_path k path ≡ ok cgroup
      → OnCgroup2 cgroup × (cgroup.path ≡ path)
  unfolding from_path
  from_path-OnCgroup2 path cgroup h =
      open_path-eq_ok path cgroup (map_err-eq_ok (explain k path) (open_path k path) h)

  child-OnCgroup2 :
      (parent : Cgroup k) (name : Str) (cgroup : Cgroup k)
      → child k parent name ≡ ok cgroup
      → OnCgroup2 cgroup
  unfolding child
  child-OnCgroup2 parent name cgroup h = elim (Bool-cases (is_child_name k name)) [
    | inr bad ↦ cc (rw bad at h)
    | inl good ↦
        let (directory, e, h') =
          >>=-Passes
            (map_err (explain_child k (join parent.path (components name)))
              (open_directory k parent.directory (components name)))
            _ (rw good at h) in
        (verified-eq_ok directory _ cgroup h').0
  ]

  explained :
      (path : PathBuf) (f : Failure) (e : IoError)
      → explain k path f ≡ io e
      → kind e ≡ invalid_input
  explained path (io source) e h = elim (Bool-cases (is_invalid_input (kind source))) [
    | inl bad ↦ ground (arith)
    | inr os_error ↦ cc (rw os_error at h)
  ]
  explained path (file_missing p) e h = cc
  explained path (not_supported p x) e h = cc
  explained path not_cgroup_v2 e h = cc
  explained path (deleted_cgroup p) e h = cc
  explained path (parse_failure p x) e h = cc
  explained path (operation name p x) e h = cc

  -- An error of opening a path without its path is that of an invalid input.
  pub from_path-io :
      (path : PathBuf) (e : IoError) → from_path k path ≡ err (io e) → kind e ≡ invalid_input
  unfolding from_path
  from_path-io path e h = elim (Result-cases (open_path k path)) [
    | inl (cgroup, opened) ↦ cc (rw opened at h)
    | inr (f, failed) ↦
        let h' : err (explain k path f) ≡ err (io e) = rw failed at h in
        explained path f e (ground arith)
  ]

  kept-OnCgroup2 :
      (result : Fallible (Cgroup k)) (cgroup : Cgroup k)
      → kept k result ≡ some (ok cgroup)
      → result ≡ ok cgroup
  kept-OnCgroup2 (ok c) cgroup h = ground arith
  kept-OnCgroup2 (err (file_missing p)) cgroup h = cc
  kept-OnCgroup2 (err (not_supported p x)) cgroup h = cc
  kept-OnCgroup2 (err not_cgroup_v2) cgroup h = cc
  kept-OnCgroup2 (err (deleted_cgroup p)) cgroup h = cc
  kept-OnCgroup2 (err (parse_failure p x)) cgroup h = cc
  kept-OnCgroup2 (err (io x)) cgroup h = cc
  kept-OnCgroup2 (err (operation name p x)) cgroup h = ground arith

  listed-OnCgroup2 :
      (parent : Cgroup k) (entry : Result Errno (Bool × Str)) (cgroup : Cgroup k)
      → listed k parent entry ≡ some (ok cgroup)
      → OnCgroup2 cgroup
  listed-OnCgroup2 parent (err e) cgroup h = cc
  listed-OnCgroup2 parent (ok (is_directory, name)) cgroup h =
      elim (Bool-cases
        (is_directory && not (str_eq name (codes ".") || str_eq name (codes "..")))) [
          | inr skipped ↦ cc (rw skipped at h)
          | inl below ↦
              child-OnCgroup2 parent name cgroup
                (kept-OnCgroup2 (child k parent name) cgroup (rw below at h))
        ]

  collected :
      (parent : Cgroup k) (entries : List (Result Errno (Bool × Str))) (found : List (Cgroup k))
      → collect (filter_map (listed k parent) entries) ≡ ok found
      → All OnCgroup2 found
  collected parent [] found h = let e : [] ≡ found = cc in subst (All OnCgroup2) e tt
  collected parent (entry ∷ entries) found h = elim (Option-cases (listed k parent entry)) [
    | inl skipped ↦ collected parent entries found (rw (skipped, filter_map) at h)
    | inr (result, e) ↦ elim (Result-cases result) [
      | inr (x, failed) ↦ cc (rw (e, failed, filter_map) at h)
      | inl (cgroup, opened) ↦
          let (rest, e', last) =
            >>=-Passes (collect (filter_map (listed k parent) entries)) _
              (rw (e, opened, filter_map) at h) in
          let both : All OnCgroup2 (cgroup ∷ rest) = (
            listed-OnCgroup2 parent entry cgroup (rw opened at e),
            collected parent entries rest e',
          ) in
          let same : cgroup ∷ rest ≡ found = cc in subst (All OnCgroup2) same both
    ]
  ]

  -- Every cgroup that is listed as a child is a directory of a cgroup2 file system.
  pub children-OnCgroup2 :
      (parent : Cgroup k) (found : List (Cgroup k))
      → children k parent ≡ ok found
      → All OnCgroup2 found
  unfolding children
  children-OnCgroup2 parent found h =
      let (entries, e, h') =
        >>=-Passes
          (map_err (λ e. operation (codes "list child cgroups") parent.path (os e))
            (k.read_dir parent.directory))
          _ h in
      collected parent entries found h'
