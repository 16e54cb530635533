-- ===== src/Paths.antt =====
-- `std::path`: a path is the list of its components, by which paths are compared.
use sakai.Base.{
  ◌==◌, if◌then◌else◌, is_empty, filter_map, Bool, true, false, ◌||◌, Option, none, some, List, [],
  ◌∷◌, ◌++◌,
}
use sakai.Str.{Str, str_eq, split}

pub data Component : Type 0 where
  root_dir cur_dir parent_dir : Component
  normal : Str → Component

abbrev pub PathBuf : Type 0
PathBuf = List Component

abbrev part : Str → Component
part text =
    if str_eq text (b'.' ∷ [])
    then cur_dir
    else if str_eq text (b'.' ∷ b'.' ∷ [])
    then parent_dir
    else normal text

-- Behind the first part, empty parts and `.` are left out.
abbrev inner : Str → Option Component
inner text = if is_empty text || str_eq text (b'.' ∷ []) then none else some (part text)

abbrev pub of_parts : List Str → PathBuf
of_parts [] = []
of_parts ([] ∷ []) = []
of_parts ([] ∷ rest) = root_dir ∷ filter_map inner rest
of_parts (first ∷ rest) = part first ∷ filter_map inner rest

-- `Path::components`
unfoldable pub components : Str → PathBuf
unfolding split str_eq
components text = of_parts (split (λ c. c == b'/') text)

abbrev pub component_eq : Component → Component → Bool
component_eq root_dir root_dir = true
component_eq cur_dir cur_dir = true
component_eq parent_dir parent_dir = true
component_eq (normal s) (normal t) = str_eq s t
component_eq _ _ = false

-- `Path::strip_prefix`
unfoldable pub strip_path : PathBuf → PathBuf → Option PathBuf
unfolding str_eq
strip_path [] path = some path
strip_path (p ∷ prefix) [] = none
strip_path (p ∷ prefix) (c ∷ path) =
    let rest = strip_path prefix path in if component_eq p c then rest else none

abbrev pub is_absolute : PathBuf → Bool
is_absolute (root_dir ∷ rest) = true
is_absolute _ = false

abbrev behind : PathBuf → PathBuf
behind (cur_dir ∷ rest) = rest
behind path = path

-- `Path::join`: an absolute path replaces, and a `.` in the middle is no component.
unfoldable pub join : PathBuf → PathBuf → PathBuf
join [] path = path
join (c ∷ base) path = if is_absolute path then path else (c ∷ base) ++ behind path
