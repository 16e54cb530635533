-- ===== src/Python/Hugetlb/Labels.antt =====
-- Which file a label of Python reads: sakai-python/src/linux/hugetlb.rs.
use sakai.Base.{err, Result-cases, ◌≡◌, refl, ap, subst, inl, inr, ◌++◌}
use sakai.Hugetlb.Readers.Names.{file_name-single}
use sakai.Hugetlb.Readers.{current}
use sakai.Unit.{Bytes}
use sakai.Handle.{Kernel, Cgroup}
use sakai.Handle.Reading.{of_open, parse-of_open}
use sakai.Hugetlb.Files.{parse_hugetlb_current}
use sakai.Hugetlb.PageSize.{PageSize, show_size, file_name, parse_size}
use sakai.Hugetlb.PageSize.RoundTrip.{IsPageSize, parse_size_iff}
use sakai.Python.Errors.{value_error, PyResult, new_err, Interpreter, python_result}
use sakai.Python.Hugetlb.{size_of_label, python_current}
use sakai.Str.{Str, codes}

module _ (py : Interpreter) (k : Kernel) (cgroup : Cgroup k) where
  -- The file of a label.
  abbrev pub label_file : Str → Str → Str
  label_file label suffix = codes "hugetlb." ++ (label ++ (codes "." ++ suffix))

  -- What reading the file of a label raises or returns.
  abbrev pub read_label : Str → PyResult Bytes
  read_label label = python_result py (
      of_open k cgroup (label_file label (codes "current")) parse_hugetlb_current
        (k.open_file cgroup.directory (label_file label (codes "current"))))

  of_size :
      (label : Str) (size : PageSize)
      → show_size size ≡ label
      → python_result py (current k cgroup size) ≡ read_label label
  unfolding current file_name
  of_size label size shown =
      subst (λ text. python_result py (current k cgroup size) ≡ read_label text) shown
        (ap (python_result py) (
          parse-of_open k cgroup (file_name size (codes "current")) parse_hugetlb_current (
            file_name-single size (codes "current")
              (refl, (refl, (refl, (refl, (refl, (refl, (refl, tt))))))))))

  -- From Python, the label of a page size reads the file with that label in its name; any other text
  -- is a `ValueError`, whatever the kernel holds.
  pub python_current-label :
      (label : Str)
      → ((size : PageSize)
          → show_size size ≡ label
          → IsPageSize size
          → python_current py k cgroup label ≡ read_label label)
        × (((size : PageSize) → show_size size ≡ label → IsPageSize size → ⊥)
            → python_current py k cgroup label ≡ err (new_err value_error))
  unfolding python_current size_of_label
  python_current-label label = (
    λ size shown valid.
        rw ((parse_size_iff label size).1 (shown, valid)) (of_size label size shown),
    λ none_fits. elim (Result-cases (parse_size label)) [
      | inl (size, e) ↦
          let (shown, valid) = (parse_size_iff label size).0 e in
          absurd (none_fits size shown valid)
      | inr (problem, e) ↦ rw e refl
    ],
  )
