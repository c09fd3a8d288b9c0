-- ===== src/Distribution/Install/Verified.antt =====
-- An install into a project with no installed packs, and the verification of the lock behind it.
use backstop_core.Prelude.{
  String, List, [], ◌∷◌, none, some, ◌≡◌, ◌≢◌, refl, sym, ap, ◌∙◌, inl, inr, All, ◌==◌, eq_iff,
  eq_refl, Bool-cases, lookup,
}
use backstop_core.Distribution.Tree.{holds}
use backstop_core.Distribution.Tree.Copy.{Unique}
use backstop_core.Distribution.Lockfile.{LockEntry, Lockfile}
use backstop_core.Distribution.Verify.{Installed, installed_tree, passing, verify_lock}
use backstop_core.Distribution.Verify.Exact.{InPlace, verify_lock-passing}
use backstop_core.Distribution.Install.{InstallOptions, InstallResult, finished, names_of, install}
use backstop_core.Distribution.Install.Copies.{IsProper}
use backstop_core.Distribution.Install.Restores.{
  install_all-Steps, install-finished, install-Restored,
}

lookup-head :
    (n : String) (entry : LockEntry) (part : Lockfile) → lookup n ((n, entry) ∷ part) ≡ some entry
unfolding lookup
lookup-head n entry part = rw eq_refl

lookup-tail :
    (n m : String) (entry f : LockEntry) (part : Lockfile)
    → lookup n part ≡ none
    → lookup m part ≡ some f
    → lookup m ((n, entry) ∷ part) ≡ some f
unfolding lookup
lookup-tail n m entry f part absent h = elim (Bool-cases (n == m)) [
  | inl e ↦ absurd (cc (sym (ap (λ x. lookup x part) ((eq_iff n m).0 e)) ∙ absent, h))
  | inr e ↦ rw e h
]

module _ (opts : InstallOptions) (proper : IsProper opts) (lock : Lockfile) where
  abbrev pub AllDeclared : List (String × String) → Lockfile → Type 0
  AllDeclared declared entries = All (λ e. lookup e.0 declared ≢ none) entries

  All-InPlace :
      (declared : List (String × String)) (packs' : Installed) (r' : InstallResult)
      (part : Lockfile)
      → Unique declared
      → install opts (some lock) (holds declared) none ≡ (packs', finished r')
      → ((n : String) (e : LockEntry) → lookup n part ≡ some e → lookup n lock ≡ some e)
      → Unique part
      → AllDeclared declared part
      → All (InPlace opts.sha packs') part
  All-InPlace declared packs' r' [] u e sub v d = tt
  All-InPlace declared packs' r' ((n, entry) ∷ part) u e sub (absent, v) (d, ds) = (
    inr (
        install-Restored opts proper lock declared none packs' r' n entry u e d
          (sub n entry (lookup-head n entry part)) (unfold installed_tree in refl)),
    All-InPlace declared packs' r' part u e
        (λ m f h. sub m f (lookup-tail n m entry f part absent h)) v ds,
  )

  -- If an install into a project with no installed packs finishes, and backstop.yml declares each
  -- locked pack, then the verification of the lock passes with no failure.
  pub verify_lock-install :
      (packs_dir : String) (declared : List (String × String)) (names : List String)
      (packs' : Installed) (r' : InstallResult)
      → Unique declared
      → Unique lock
      → AllDeclared declared lock
      → install opts (some lock) (holds declared) none ≡ (packs', finished r')
      → verify_lock opts.sha packs_dir (some lock) packs' names ≡ some passing
  verify_lock-install packs_dir declared names packs' r' u v d e =
      let (r, q) = install-finished opts proper lock declared none packs' r' e in
      verify_lock-passing opts.sha packs_dir lock packs' names
        (All-InPlace declared packs' r' lock u e (λ n f h. h) v d)
        ((install_all-Steps opts proper lock none none packs' (names_of declared) r r' q).1 tt)
