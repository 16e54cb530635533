-- ===== src/Vmtest/Selection.antt =====
-- The kernels that a run asks for: xtask/src/vmtest/mod.rs and kernel.rs.
use sakai.Base.{
  if◌then◌else◌, is_empty, filter, any, all, ok, ◌>>◌, Bool, true, false, not, List, [], ◌∷◌, map,
}
use sakai.Http.{Attempted}
use sakai.Release.Package.{ensure}
use sakai.Str.{Str, codes, str_eq}

pub record Kernel : Type 0 where
  pub name : Str
  pub smoke : Bool

-- `Kernel::ALL`
abbrev pub all_kernels : List Kernel
all_kernels =
    record { name = codes "5.15"; smoke = true }
    ∷ record { name = codes "6.1"; smoke = false }
    ∷ record { name = codes "6.6"; smoke = false }
    ∷ record { name = codes "6.12"; smoke = false }
    ∷ record { name = codes "6.18"; smoke = true }
    ∷ []

pub data Profile : Type 0 where
  smoke_profile full_profile : Profile

-- `Profile::matches`
unfoldable pub matches : Profile → Kernel → Bool
matches smoke_profile kernel = kernel.smoke
matches full_profile kernel = true

-- `Vmtest::kernel_matrix`
unfoldable pub kernel_matrix : Profile → List Str
unfolding matches
kernel_matrix profile = map (λ k. k.name) (filter (λ k. matches profile k) all_kernels)

abbrev pub is_named : List Str → Kernel → Bool
is_named names kernel = any (λ name. str_eq name kernel.name) names

abbrev pub is_known : Str → Bool
is_known name = any (λ k. str_eq k.name name) all_kernels

-- The kernels that `Vmtest::run` selects, and its two guards.
unfoldable pub selected : Profile → List Str → Attempted (List Kernel)
unfolding matches str_eq
selected profile names = do
  let chosen =
      filter (λ kernel. if is_empty names then matches profile kernel else is_named names kernel)
        all_kernels
  ensure (not (is_empty chosen)) (codes "no kernel fixtures matched the request")
  ensure (all is_known names) (codes "unknown kernel fixture requested")
  ok chosen
