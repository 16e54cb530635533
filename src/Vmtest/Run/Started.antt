-- ===== src/Vmtest/Run/Started.antt =====
-- What a run has done, from its guards to its last kernel: xtask/src/vmtest/mod.rs.
use sakai.Release.Package.{ensure}
use sakai.Paths.{PathBuf}
use sakai.Vmtest.Run.Sound.{Tests, test_kernels-Tests}
use sakai.Vmtest.Run.{
  Machine, Host, Stop, fault, Caches, Tested, binary_of, placed, recorded, ready_kernels, of_ready,
  of_repository, run,
}
use sakai.Http.{io_fault, Attempted}
use sakai.Str.{Str, codes, str_eq}
use sakai.Base.{
  ok, err, map_err, >>=-Passes, ◌≡◌, refl, ◌∙◌, ◌⊎◌, inl, inr, false, ◌&&◌, Option, List, [], map,
}
use sakai.Vmtest.Selection.{Kernel, Profile, selected}

module _ (machines : Str → Machine) (host : Host) (profile : Profile) (names : List Str) where
  ready_kernels-selected :
      (test_binary : Option Str) (chosen : List Kernel)
      → ready_kernels machines host profile names test_binary ≡ ok chosen
      → selected profile names ≡ ok chosen
  unfolding ready_kernels
  ready_kernels-selected test_binary chosen h =
      let (d1, e1, h1) =
        >>=-Passes
          (ensure (str_eq host.os (codes "linux") && str_eq host.arch (codes "x86_64"))
            (codes "vmtest requires an x86-64 Linux host"))
          _ h in
      let (found, e2, h2) = >>=-Passes (selected profile names) _ h1 in
      let (d3, e3, h3) = >>=-Passes (map_err io_fault host.create_cache) _ h2 in
      let (binary, e4, h4) = >>=-Passes (binary_of machines host profile names test_binary) _ h3 in
      let (d5, e5, h5) = >>=-Passes (placed machines host profile names binary) _ h4 in
      let (d6, e6, h6) = >>=-Passes (recorded machines host profile names test_binary) _ h5 in
      e2 ∙ h6

  -- A run outside of a container either ends before it tests any kernel, with an error and the caches
  -- as they were; or tests those that were asked for: they ran in order, all of them if the run
  -- succeeds, each on an image that was in its cache before or was downloaded whole, and so is every
  -- image that the caches hold afterwards.
  pub run-Tests :
      (test_binary : Option Str) (caches : Caches)
      → str_eq host.os (codes "macos") ≡ false
      → ((stop : Stop) × (run machines host profile names test_binary caches
            ≡ (err stop, caches, [])))
        ⊎ ((chosen : List Kernel) × (selected profile names ≡ ok chosen)
            × Tests machines
                (map (λ kernel. kernel.name) chosen)
                caches
                (run machines host profile names test_binary caches))
  unfolding run
  run-Tests test_binary caches native = by_repository host.repository
    where
      Outcome : Tested → Type 0
      Outcome t =
          ((stop : Stop) × (t ≡ (err stop, caches, [])))
          ⊎ ((chosen : List Kernel) × (selected profile names ≡ ok chosen)
              × Tests machines (map (λ kernel. kernel.name) chosen) caches t)

      by_ready :
          (ready : Attempted (List Kernel))
          → ((chosen : List Kernel) → ready ≡ ok chosen → selected profile names ≡ ok chosen)
          → Outcome (of_ready machines host profile names caches ready)
      by_ready (err e) h = inl (fault e, refl)
      by_ready (ok chosen) h = inr (chosen, h chosen refl, test_kernels-Tests machines _ caches)

      by_repository :
          (r : Attempted PathBuf)
          → Outcome (of_repository machines host profile names test_binary caches r)
      by_repository (err e) = inl (fault e, refl)
      by_repository (ok path) = rw native (
          by_ready (ready_kernels machines host profile names test_binary)
            (ready_kernels-selected test_binary))
