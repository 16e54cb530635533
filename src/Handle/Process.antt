-- ===== src/Handle/Process.antt =====
-- Opening the cgroup of a process.
use sakai.Base.{Result, ok, map_err, >>=-Passes, ℕ, ◌≤◌, ◌<◌, ◌≡◌, subst, List, arith}
use sakai.Handle.Discovery.{open_candidates, process_id, locate_failure, open_one, from_pid}
use sakai.Num.{i32_max}
use sakai.Paths.{PathBuf}
use sakai.Locate.{Membership, Mount, CgroupPath, ProcError, candidates, procfs_failure}
use sakai.Handle.{Kernel, Fallible, Cgroup}
use sakai.Handle.Fallback.{Opens, here, later, Returns, open_candidates-Returns}
use sakai.Handle.Verified.{OnCgroup2, from_path-OnCgroup2}

module _ {S T : Type 0} (opener : PathBuf → S → Fallible T × S) where
  Opens-ok :
      (cs : List CgroupPath) (s s' : S) (v : T)
      → Opens opener cs s v s'
      → (c : CgroupPath) × (t : S) × ((opener c.path t).0 ≡ ok v)
  Opens-ok _ s _ v (here {c = c} e) = (c, s, e)
  Opens-ok _ s s' v (later {c = c} {cs = cs} x e o) = Opens-ok cs (opener c.path s).1 s' v o

module _ (k : Kernel) where
  opened-OnCgroup2 :
      (cs : List CgroupPath) (cgroup : Cgroup k)
      → (open_candidates (open_one k) cs tt).0 ≡ ok cgroup
      → OnCgroup2 k cgroup
  opened-OnCgroup2 cs cgroup h =
      let done = (open_candidates (open_one k) cs tt).1 in
      let all_cases = open_candidates-Returns (open_one k) cs tt in
      let opens : Opens (open_one k) cs tt cgroup done =
        subst (λ (r : Fallible (Cgroup k)). Returns (open_one k) cs tt r done) h all_cases in
      let (c, t, e) = Opens-ok (open_one k) cs tt done cgroup opens in
      (from_path-OnCgroup2 k c.path cgroup e).0

  valid_id : (pid id : ℕ) → process_id pid ≡ ok id → (0 < pid) × (pid ≤ i32_max) × (id ≡ pid)
  unfolding process_id
  valid_id pid id h = ground arith

  -- A cgroup that is opened for a process identifier is a directory of a cgroup2 file system, and the
  -- identifier is positive and has 31 bits.
  pub from_pid-OnCgroup2 :
      (process : ℕ → Result ProcError (Result ProcError (List Membership)))
      (myself : Result ProcError (Result ProcError (List Mount))) (pid : ℕ) (cgroup : Cgroup k)
      → from_pid k process myself pid ≡ ok cgroup
      → (0 < pid) × (pid ≤ i32_max) × OnCgroup2 k cgroup
  unfolding from_pid
  from_pid-OnCgroup2 process myself pid cgroup h =
      let (id, e, h1) = >>=-Passes (process_id pid) _ h in
      let (cgroups, e1, h2) = >>=-Passes (map_err procfs_failure (process id)) _ h1 in
      let (mountinfo, e2, h3) = >>=-Passes (map_err procfs_failure myself) _ h2 in
      let (found, e3, h4) =
        >>=-Passes (map_err locate_failure (candidates cgroups mountinfo)) _ h3 in
      let (positive, fits, same) = valid_id pid id e in
      (positive, fits, opened-OnCgroup2 found cgroup h4)
