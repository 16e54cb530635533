-- ===== src/Handle/Names.antt =====
-- Which names the guards let through.
use sakai.Base.{◌==◌, any, All, ◌>>=◌, map_err, ◌≡◌, refl, ◌∙◌, true, false, [], ◌∷◌, arith}
use sakai.Paths.{normal, of_parts, components}
use sakai.Os.{os}
use sakai.Str.{Str}
use sakai.Str.Tokens.{split_self}
use sakai.Scalar.{Interface, cgroup_freeze, file_name}
use sakai.Handle.{Kernel, single_normal, starts_normal, read_file, is_child_name}

no_slash : (name : Str) → any (λ c. c == b'/') name ≡ false → All (λ c. (c == b'/') ≡ false) name
no_slash [] h = tt
no_slash (c ∷ s) h =
    let both : ((c == b'/') ≡ false) × (any (λ c. c == b'/') s ≡ false) = ground arith in
    (both.0, no_slash s both.1)

components-name :
    (name : Str) → any (λ c. c == b'/') name ≡ false → components name ≡ of_parts (name ∷ [])
unfolding components
components-name name h = rw (split_self (λ c. c == b'/') name (no_slash name h))

one_part :
    (name : Str)
    → starts_normal (of_parts (name ∷ [])) ≡ true
    → of_parts (name ∷ []) ≡ normal name ∷ []
one_part [] h = cc
one_part (c ∷ s) h = ground arith

-- The name of a child that passes the guard is one component by itself, so the directory that is opened
-- stands directly in the parent.
pub is_child_name-components :
    (k : Kernel) (name : Str) → is_child_name k name ≡ true → components name ≡ normal name ∷ []
unfolding is_child_name
is_child_name-components k name h =
    let both : (any (λ c. c == b'/') name ≡ false) × (starts_normal (components name) ≡ true) =
      ground arith in
    let e = components-name name both.0 in e ∙ one_part name (rw e at both.1)

single_file_name : (i : Interface) → single_normal (components (file_name i)) ≡ true
unfolding components file_name
single_file_name cgroup_freeze = refl
single_file_name _ = refl

-- The guard of reading refuses no scalar interface: its file is opened and read.
pub read_file-file_name :
    (k : Kernel) (cgroup : k.Fd) (i : Interface)
    → read_file k cgroup (file_name i) ≡ (
        map_err os (k.open_file cgroup (file_name i)) >>= λ descriptor. k.read_to_string descriptor)
unfolding read_file
read_file-file_name k cgroup i = rw (single_file_name i)
