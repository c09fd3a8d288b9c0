-- ===== src/Distribution/Install/Rollback.antt =====
-- What an install that fails leaves.
use backstop_core.Prelude.{
  String, List, [], ◌∷◌, Option, none, some, ◌≡◌, refl, subst, inl, inr, Bool-cases, lookup,
}
use backstop_core.Distribution.Tree.{missing, bad, holds}
use backstop_core.Distribution.Lockfile.{Lockfile}
use backstop_core.Distribution.Verify.{Installed}
use backstop_core.Distribution.Install.{
  InstallOptions, InstallResult, InstallError, Ending, finished, failed, panicked, Manifest,
  Installing, installs, errs, panics, rollback, undone, install_pack, after_pack, install_all,
  can_snapshot, install, names_of,
}

rollback-undone : (snapshot : Installed) → rollback undone undone snapshot ≡ snapshot
unfolding rollback
rollback-undone none = refl
rollback-undone (some p) = refl

module _ (opts : InstallOptions) (removes : opts.removal ≡ undone)
    (restores : opts.restoring ≡ undone) where
  rollback-eq : (snapshot : Installed) → rollback opts.removal opts.restoring snapshot ≡ snapshot
  rollback-eq snapshot = rw (removes, restores) (rollback-undone snapshot)

  -- Where a run ends with an error the packs directory is what it should be.
  abbrev Leaves : Installed → Installed × Ending → Type 0
  Leaves snapshot (packs, failed e) = packs ≡ snapshot
  Leaves snapshot (packs, finished r) = Unit
  Leaves snapshot (packs, panicked name) = Unit

  after_pack-Leaves :
      (snapshot : Installed) (o : Installing)
      (rest : Installed → InstallResult → Installed × Ending)
      → ((packs : Installed) (r : InstallResult) → Leaves snapshot (rest packs r))
      → Leaves snapshot (after_pack (rollback opts.removal opts.restoring snapshot) o rest)
  after_pack-Leaves snapshot (installs packs r) rest h = h packs r
  after_pack-Leaves snapshot (errs packs e) rest h = rollback-eq snapshot
  after_pack-Leaves snapshot (panics packs name) rest h = tt

  install_all-Leaves :
      (snapshot : Installed) (lock : Lockfile) (names : List String) (packs : Installed)
      (r : InstallResult)
      → Leaves snapshot (install_all opts snapshot lock names packs r)
  unfolding install_all
  install_all-Leaves snapshot lock [] packs r = tt
  install_all-Leaves snapshot lock (name ∷ names) packs r =
      after_pack-Leaves snapshot (install_pack opts name (lookup name lock) packs r)
        (install_all opts snapshot lock names) (λ p q. install_all-Leaves snapshot lock names p q)

  install-Leaves :
      (lock : Option Lockfile) (manifest : Manifest) (packs : Installed)
      → Leaves packs (install opts lock manifest packs)
  unfolding install
  install-Leaves none manifest packs = refl
  install-Leaves (some lock) bad packs = refl
  install-Leaves (some lock) missing packs = tt
  install-Leaves (some lock) (holds declared) packs = elim (Bool-cases (can_snapshot opts packs)) [
    | inl e ↦ rw e (install_all-Leaves packs lock (names_of declared) packs _)
    | inr e ↦ rw e refl
  ]

  -- An install that ends with an error, whichever and at whichever pack, leaves the packs directory
  -- as it was, if the removal of the directory and the copy of its snapshot succeed in the rollback.
  pub install-failed :
      (lock : Option Lockfile) (manifest : Manifest) (packs packs' : Installed) (e : InstallError)
      → install opts lock manifest packs ≡ (packs', failed e)
      → packs' ≡ packs
  install-failed lock manifest packs packs' e q =
      subst (Leaves packs) q (install-Leaves lock manifest packs)
