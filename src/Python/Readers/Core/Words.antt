-- ===== src/Python/Readers/Core/Words.antt =====
-- The controllers that Python lists: sakai-python/src/linux/core.rs.
use sakai.Unit.{Float}
use sakai.Os.{Failure}
use sakai.Python.Readers.Core.{python_core_controllers, python_core_subtree_control}
use sakai.Python.Errors.{PyResult, Interpreter, from_core, python_result}
use sakai.Strum.{from_name, name-from_name}
use sakai.Str.{Str, codes, split_ascii_whitespace}
use sakai.Core.Controller.{
  CgroupController, other, controller_name, known_controllers, controller_from, controller_list,
}
use sakai.Base.{
  Result, ok, err, map_ok, map_err, ◌≡◌, refl, ap, Option, none, some, List, [], ◌∷◌, map,
}
use sakai.Core.Readers.{read_controllers, controllers, subtree_control}
use sakai.Handle.{Kernel, Cgroup, read}

controller_name-controller_from : (name : Str) → controller_name (controller_from name) ≡ name
unfolding controller_from
controller_name-controller_from name =
    by_name (from_name controller_name known_controllers name) refl
  where
    by_name :
        (o : Option CgroupController)
        → from_name controller_name known_controllers name ≡ o
        → controller_name (elim o [ none ↦ other name | some c ↦ c ]) ≡ name
    by_name none h = unfold controller_name in refl
    by_name (some c) h = name-from_name controller_name known_controllers name h

names_of-words : (words : List Str) → map controller_name (map controller_from words) ≡ words
names_of-words [] = refl
names_of-words (w ∷ words) = rw (controller_name-controller_from w, names_of-words words) refl

module _ (py : Interpreter) (k : Kernel) (f : Float) (cgroup : Cgroup k) where
  -- The words of a file, or what reading it raises.
  abbrev pub words_of : Str → PyResult (List Str)
  words_of file = map_ok split_ascii_whitespace (python_result py (read k cgroup file))

  named :
      (file : Str)
      → map_ok (map controller_name) (python_result py (read_controllers k f cgroup file))
        ≡ words_of file
  unfolding read_controllers controller_list python_result
  named file = by_read (read k cgroup file)
    where
      by_read :
          (r : Result Failure Str)
          → map_ok (map controller_name) (
              map_err
                (from_core py)
                (map_ok (λ contents. map controller_from (split_ascii_whitespace contents)) r))
            ≡ map_ok split_ascii_whitespace (map_err (from_core py) r)
      by_read (err e) = refl
      by_read (ok contents) = ap ok (names_of-words (split_ascii_whitespace contents))

  -- Python lists the controllers of both files word for word as the kernel does, in its order, those
  -- that the crate does not know included; or raises what reading the file raises.
  pub python_core_controllers-words :
      (python_core_controllers py k f cgroup ≡ words_of (codes "cgroup.controllers"))
      × (python_core_subtree_control py k f cgroup ≡ words_of (codes "cgroup.subtree_control"))
  unfolding python_core_controllers python_core_subtree_control controllers subtree_control
  python_core_controllers-words =
      (named (codes "cgroup.controllers"), named (codes "cgroup.subtree_control"))
