-- ===== src/Handle/Beneath.antt =====
-- Opening a directory beneath another on a kernel without `openat2`: `Cgroup::open_directory` and
-- `Cgroup::open_components` of sakai/src/cgroup/v2/handle.rs. The tree of directories is an argument.
use sakai.Base.{
  Bool-cases, all, ok, err, map_err, try_fold, >>=-Passes, ok-eq, map_err-ok, ◌≡◌, refl, ap, inl,
  inr, true, Option, none, some, [], ◌∷◌,
}
use sakai.Str.{Str}
use sakai.Paths.{root_dir, cur_dir, parent_dir, normal, PathBuf}
use sakai.Os.{enosys, os, io}
use sakai.Handle.{Kernel, may_descend, open_components, open_directory}

-- A kernel before Linux 5.6, which has no `openat2`.
abbrev pub without_openat2 : Kernel → Kernel
without_openat2 k = record k { openat2 = λ base path. err enosys }

module _ {Dir : Type 0} (subdirectory : Dir → Str → Option Dir) where
  -- Where the names of a path lead to, from one directory to one in it: never to a link, to the parent
  -- or to the root.
  abbrev pub follow : Dir → PathBuf → Option Dir
  follow d [] = some d
  follow d (normal name ∷ path) = elim (subdirectory d name) [
    | none ↦ none
    | some inner ↦ follow inner path
  ]
  follow d (cur_dir ∷ path) = follow d path
  follow d (parent_dir ∷ path) = none
  follow d (root_dir ∷ path) = none

  -- As `openat` is documented: the name `.` opens the directory again, and any other name with
  -- `O_NOFOLLOW` and `O_DIRECTORY` opens the directory that the entry of this name is.
  module _ (k : Kernel) (dir : k.Fd → Dir)
      (reopens : (d e : k.Fd) → k.openat d cur_dir ≡ ok e → dir e ≡ dir d)
      (enters : (d e : k.Fd) (name : Str)
        → k.openat d (normal name) ≡ ok e
        → subdirectory (dir d) name ≡ some (dir e)) where
    fold-follow :
        (path : PathBuf) (start : k.Fd) {fd : k.Fd}
        → all may_descend path ≡ true
        → try_fold (λ directory part. map_err (λ e. io (os e)) (k.openat directory part)) start path
          ≡ ok fd
        → follow (dir start) path ≡ some (dir fd)
    fold-follow [] start a h = ap (λ d. some (dir d)) (ok-eq h)
    fold-follow (root_dir ∷ path) start a h = cc
    fold-follow (parent_dir ∷ path) start a h = cc
    fold-follow (cur_dir ∷ path) start a h =
        let (next, e, rest) = >>=-Passes (map_err (λ e. io (os e)) (k.openat start cur_dir)) _ h in
        let same = reopens start next (map_err-ok (λ e. io (os e)) _ e) in
        rw (← same) (fold-follow path next a rest)
    fold-follow (normal name ∷ path) start a h =
        let (next, e, rest) =
          >>=-Passes (map_err (λ e. io (os e)) (k.openat start (normal name))) _ h in
        let entry = enters start next name (map_err-ok (λ e. io (os e)) _ e) in
        rw (entry, follow) (fold-follow path next a rest)

    open_components-follow :
        (base : k.Fd) (path : PathBuf) {fd : k.Fd}
        → all may_descend path ≡ true
        → open_components k base path ≡ ok fd
        → follow (dir base) path ≡ some (dir fd)
    unfolding open_components
    open_components-follow base path a h =
        let (start, e, rest) = >>=-Passes (map_err (λ e. io (os e)) (k.openat base cur_dir)) _ h in
        let same = reopens base start (map_err-ok (λ e. io (os e)) _ e) in
        rw (← same) (fold-follow path start a rest)

    -- On a kernel without `openat2`, a directory that is opened beneath another is where the names of
    -- the path lead from it, through no link, parent or root, if `openat` opens the entry of the name.
    pub open_directory-follow :
        (base : k.Fd) (relative : PathBuf) (fd : k.Fd)
        → open_directory (without_openat2 k) base relative ≡ ok fd
        → follow (dir base) relative ≡ some (dir fd)
    unfolding open_directory open_components
    open_directory-follow base [] fd h = open_components-follow base (cur_dir ∷ []) refl h
    open_directory-follow base (part ∷ path) fd h =
        elim (Bool-cases (all may_descend (part ∷ path))) [
          | inl beneath ↦ open_components-follow base (part ∷ path) beneath (rw beneath at h)
          | inr other ↦ cc (rw other at h)
        ]
