-- ===== src/Examples/Locating.antt =====
-- Finding the directory of a cgroup in a small mount table.
use sakai.Base.{filter, ℕ, ◌≡◌, refl, false, some, List, [], ◌∷◌}
use sakai.Str.{Str, codes}
use sakai.Paths.{root_dir, normal, PathBuf}
use sakai.Locate.{Mount, CgroupPath, candidate, ranked}
use sakai.Locate.Ranking.{Ranked, Descends, is_at}
use sakai.Locate.Shown.{Shown, ranked-Shown}

-- Two mounts that show the cgroup, of which the second is deeper, and one of another file system.
abbrev mount_of : Str → Str → Str → Mount
mount_of fs root point = record {
  fs_type = fs;
  root = root;
  mount_point = normal point ∷ [];
  mount_options = [];
}

abbrev pub mounts : List Mount
mounts =
    mount_of (codes "proc") (codes "/") (codes "p")
    ∷ mount_of (codes "cgroup2") (codes "/") (codes "m")
    ∷ mount_of (codes "cgroup2") (codes "/a") (codes "n")
    ∷ []

abbrev pub cgroup : PathBuf
cgroup = root_dir ∷ normal (codes "a") ∷ normal (codes "b") ∷ []

ranked-Shown_example :
    (entries : List Ranked) × Shown cgroup mounts entries
    × Descends (ranked cgroup mounts)
    × ((depth : ℕ) → filter (is_at depth) (ranked cgroup mounts) ≡ filter (is_at depth) entries)
ranked-Shown_example = ranked-Shown cgroup mounts

abbrev deep_mount : Mount
deep_mount = mount_of (codes "cgroup2") (codes "/a") (codes "n")

abbrev pub deep : CgroupPath
deep = record {
  path = normal (codes "n") ∷ normal (codes "b") ∷ [];
  mount_point = normal (codes "n") ∷ [];
  read_only = false;
}

candidate-deep : candidate cgroup deep_mount ≡ some (2, deep)
unfolding candidate
candidate-deep = refl
