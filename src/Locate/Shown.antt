-- ===== src/Locate/Shown.antt =====
-- Which mounts show a cgroup, said of their lines alone, and the order in which they are tried.
use sakai.Base.{
  Bool-cases, Option-cases, length, filter, any, filter_map, ℕ, ◌≡◌, refl, ap, ◌∙◌, subst, ◌≢◌, ◌↔◌,
  ◌⊎◌, inl, inr, true, none, some, List, [], ◌∷◌, ◌++◌, arith,
}
use sakai.Paths.{
  Component, root_dir, cur_dir, parent_dir, normal, PathBuf, components, component_eq, strip_path,
  join,
}
use sakai.Str.{Str, codes, str_eq}
use sakai.Str.Equal.{str_eq_iff, str_eq_refl}
use sakai.Locate.{Mount, candidate, ranked}
use sakai.Locate.Ranking.{Ranked, Descends, is_at, sort_ranked-Descends, sort_ranked-filter}

-- The text is one of the list.
abbrev pub Among : Str → List Str → Type 0
Among s [] = ⊥
Among s (t ∷ ts) = (s ≡ t) ⊎ Among s ts

-- A mount shows a cgroup if it is of cgroup2 and its root is above the cgroup. The entry is ranked by the
-- number of the components of that root; its path is the rest of the cgroup's below the mount point, and
-- it is read-only if `ro` is among the options.
abbrev pub Shows : PathBuf → Mount → Ranked → Type 0
Shows cgroup mount (depth, found) =
    (mount.fs_type ≡ codes "cgroup2")
    × (depth ≡ length (components mount.root))
    × (found.mount_point ≡ mount.mount_point)
    × ((found.read_only ≡ true) ↔ Among (codes "ro") mount.mount_options)
    × (relative : PathBuf) × (cgroup ≡ components mount.root ++ relative)
    × (found.path ≡ join mount.mount_point relative)

-- The entries of the mounts that show the cgroup, in the order of the mounts.
pub data Shown (cgroup : PathBuf) : List Mount → List Ranked → Type 0 where
  nothing : Shown cgroup [] []
  listed :
      {mount : Mount} {entry : Ranked} {mounts : List Mount} {entries : List Ranked}
      → Shows cgroup mount entry
      → Shown cgroup mounts entries
      → Shown cgroup (mount ∷ mounts) (entry ∷ entries)
  left_out :
      {mount : Mount} {mounts : List Mount} {entries : List Ranked}
      → ((entry : Ranked) → ¬ Shows cgroup mount entry)
      → Shown cgroup mounts entries
      → Shown cgroup (mount ∷ mounts) entries

any-Among : (s : Str) (ts : List Str) → (any (str_eq s) ts ≡ true) ↔ Among s ts
any-Among s [] = (λ h. cc, λ h. absurd h)
any-Among s (t ∷ ts) = ground (str_eq_iff s t, any-Among s ts, arith)

component_eq_sound : (c d : Component) → component_eq c d ≡ true → c ≡ d
component_eq_sound root_dir root_dir h = refl
component_eq_sound cur_dir cur_dir h = refl
component_eq_sound parent_dir parent_dir h = refl
component_eq_sound (normal s) (normal t) h = ap normal ((str_eq_iff s t).0 h)
component_eq_sound root_dir cur_dir h = cc
component_eq_sound root_dir parent_dir h = cc
component_eq_sound root_dir (normal t) h = cc
component_eq_sound cur_dir root_dir h = cc
component_eq_sound cur_dir parent_dir h = cc
component_eq_sound cur_dir (normal t) h = cc
component_eq_sound parent_dir root_dir h = cc
component_eq_sound parent_dir cur_dir h = cc
component_eq_sound parent_dir (normal t) h = cc
component_eq_sound (normal s) root_dir h = cc
component_eq_sound (normal s) cur_dir h = cc
component_eq_sound (normal s) parent_dir h = cc

strip_path-append :
    (prefix path : PathBuf) {rest : PathBuf}
    → strip_path prefix path ≡ some rest
    → path ≡ prefix ++ rest
unfolding strip_path
strip_path-append [] path {rest} h = ground arith
strip_path-append (p ∷ prefix) [] {rest} h = cc
strip_path-append (p ∷ prefix) (c ∷ path) {rest} h =
    ground (arith, component_eq_sound p c, strip_path-append prefix path {rest = rest})

component_eq_refl : (c : Component) → component_eq c c ≡ true
component_eq_refl root_dir = refl
component_eq_refl cur_dir = refl
component_eq_refl parent_dir = refl
component_eq_refl (normal s) = str_eq_refl s

strip_path-prefix : (prefix rest : PathBuf) → strip_path prefix (prefix ++ rest) ≡ some rest
unfolding strip_path
strip_path-prefix [] rest = refl
strip_path-prefix (c ∷ prefix) rest = rw (component_eq_refl c) (strip_path-prefix prefix rest)

some-eq : {A : Type 0} {a b : A} → some a ≡ some b → a ≡ b
some-eq h = cc

candidate-Shows :
    (cgroup : PathBuf) (mount : Mount) (entry : Ranked)
    → candidate cgroup mount ≡ some entry
    → Shows cgroup mount entry
unfolding candidate
candidate-Shows cgroup mount entry h = elim (Bool-cases (str_eq mount.fs_type (codes "cgroup2"))) [
  | inr other ↦ cc (rw other at h)
  | inl same ↦ elim (Option-cases (strip_path (components mount.root) cgroup)) [
    | inl outside ↦ cc (rw (same, outside) at h)
    | inr (relative, e) ↦ subst (Shows cgroup mount) (some-eq (rw (same, e) at h)) (
      (str_eq_iff mount.fs_type (codes "cgroup2")).0 same,
      refl,
      refl,
      any-Among (codes "ro") mount.mount_options,
      relative,
      strip_path-append (components mount.root) cgroup e,
      refl,
    )
  ]
]

Shows-candidate :
    (cgroup : PathBuf) (mount : Mount) (entry : Ranked)
    → Shows cgroup mount entry
    → candidate cgroup mount ≢ none
unfolding candidate
Shows-candidate cgroup mount entry (fs, depth, point, ro, relative, below, path) none_found =
    let same = (str_eq_iff mount.fs_type (codes "cgroup2")).1 fs in
    let stripped : strip_path (components mount.root) cgroup ≡ some relative =
      ap (strip_path (components mount.root)) below
      ∙ strip_path-prefix (components mount.root) relative in
    cc (rw (same, stripped) at none_found)

filter_map-Shown :
    (cgroup : PathBuf) (mounts : List Mount)
    → Shown cgroup mounts (filter_map (candidate cgroup) mounts)
filter_map-Shown cgroup [] = nothing
filter_map-Shown cgroup (mount ∷ mounts) = elim (Option-cases (candidate cgroup mount)) [
  | inl e ↦
      rw (e, filter_map)
        (left_out (λ entry h. Shows-candidate cgroup mount entry h e)
          (filter_map-Shown cgroup mounts))
  | inr (entry, e) ↦
      rw (e, filter_map)
        (listed (candidate-Shows cgroup mount entry e) (filter_map-Shown cgroup mounts))
]

-- The candidates are the mounts that show the cgroup, all of them. They are tried from the deepest root
-- to the shallowest, and those of one depth in the order in which their mounts are listed.
pub ranked-Shown :
    (cgroup : PathBuf) (mounts : List Mount)
    → (entries : List Ranked) × Shown cgroup mounts entries
      × Descends (ranked cgroup mounts)
      × ((depth : ℕ) → filter (is_at depth) (ranked cgroup mounts) ≡ filter (is_at depth) entries)
unfolding ranked
ranked-Shown cgroup mounts =
    let found = filter_map (candidate cgroup) mounts in
    (
      found,
      filter_map-Shown cgroup mounts,
      sort_ranked-Descends found,
      λ depth. sort_ranked-filter depth found,
    )
