-- ===== src/Core/Controller.antt =====
-- `cgroup.type` and the lists of controllers, sakai/src/cgroup/v2/core.rs.
use sakai.Base.{Option, none, some, List, [], ◌∷◌, map}
use sakai.Str.{Str, codes, is_whitespace, split_ascii_whitespace, trim}
use sakai.Strum.{from_name}

pub data CgroupType : Type 0 where
  domain domain_threaded domain_invalid threaded : CgroupType

unfoldable pub type_name : CgroupType → Str
type_name domain = codes "domain"
type_name domain_threaded = codes "domain threaded"
type_name domain_invalid = codes "domain invalid"
type_name threaded = codes "threaded"

-- `Core::kind` on the contents of the file: the trimmed text is a type's name, or there is none.
unfoldable pub parse_type : Str → Option CgroupType
unfolding trim is_whitespace from_name type_name
parse_type contents =
    from_name type_name (domain ∷ domain_threaded ∷ domain_invalid ∷ threaded ∷ []) (trim contents)

pub data CgroupController : Type 0 where
  cpu cpuset io memory hugetlb pids rdma misc dmem perf_event : CgroupController
  other : Str → CgroupController

-- `Display`
unfoldable pub controller_name : CgroupController → Str
controller_name cpu = codes "cpu"
controller_name cpuset = codes "cpuset"
controller_name io = codes "io"
controller_name memory = codes "memory"
controller_name hugetlb = codes "hugetlb"
controller_name pids = codes "pids"
controller_name rdma = codes "rdma"
controller_name misc = codes "misc"
controller_name dmem = codes "dmem"
controller_name perf_event = codes "perf_event"
controller_name (other name) = name

abbrev pub known_controllers : List CgroupController
known_controllers =
    cpu ∷ cpuset ∷ io ∷ memory ∷ hugetlb ∷ pids ∷ rdma ∷ misc ∷ dmem ∷ perf_event ∷ []

-- `CgroupController::from`, the `default` variant for an unknown name.
unfoldable pub controller_from : Str → CgroupController
unfolding from_name controller_name
controller_from name = elim (from_name controller_name known_controllers name) [
  | none ↦ other name
  | some c ↦ c
]

-- `Core::controller_list` on the contents of the file.
unfoldable pub controller_list : Str → List CgroupController
unfolding split_ascii_whitespace controller_from
controller_list contents = map controller_from (split_ascii_whitespace contents)
