-- ===== src/Distribution/Install/Restores.antt =====
-- A finished install restores what the lock records.
use backstop_core.Prelude.{
  String, false, List, [], ◌∷◌, Option, none, some, ◌≡◌, ◌≢◌, refl, sym, ap, ◌∙◌, arith, inl, inr,
  All, ◌==◌, eq_iff, Bool-cases, lookup, put, subst, if_true, if_false,
}
use backstop_core.Distribution.Tree.{Tree, holds}
use backstop_core.Distribution.Tree.Copy.{Unique}
use backstop_core.Distribution.Lockfile.{LockEntry, Lockfile}
use backstop_core.Distribution.Verify.{Installed, installed_tree}
use backstop_core.Distribution.Verify.Exact.{Known, AllKnown}
use backstop_core.Distribution.Install.{
  InstallOptions, InstallResult, Ending, finished, Installing, installs, errs, panics, put_tree,
  install_pack, after_pack, install_all, names_of, can_snapshot, install, rollback,
}
use backstop_core.Distribution.Install.Names.{count, count-names_of}
use backstop_core.Distribution.Install.Copies.{
  IsProper, Copies, install_pack-Copies, installed_tree-put_tree, Restored, Copies-Restored,
  copy_of,
}

-- The packs directory behind one pack.
packs_of : Installing → Installed
packs_of (installs packs r) = packs
packs_of (errs packs e) = packs
packs_of (panics packs name) = packs

-- A loop that finishes went on from what its first pack left.
after_pack-finished :
    (snapshot packs' : Installed) (r' : InstallResult) (o : Installing)
    (rest : Installed → InstallResult → Installed × Ending)
    → after_pack snapshot o rest ≡ (packs', finished r')
    → (p : Installed) × (r : InstallResult) × (o ≡ installs p r)
      × (rest p r ≡ (packs', finished r'))
after_pack-finished snapshot packs' r' (installs p r) rest e = (p, r, refl, e)
after_pack-finished snapshot packs' r' (errs p e') rest e = absurd (cc)
after_pack-finished snapshot packs' r' (panics p n) rest e = absurd (cc)

All-Known-put :
    (lock : Lockfile) (name : String) (t : Tree) (ps : List (String × Tree))
    → lookup name lock ≢ none
    → All (Known lock) ps
    → All (Known lock) (put name t ps)
unfolding put
All-Known-put lock name t [] h k = (h, tt)
All-Known-put lock name t ((i, w) ∷ ps) h (a, k) = elim (Bool-cases (i == name)) [
  | inl e ↦ rw e (a, k)
  | inr e ↦ rw e (a, All-Known-put lock name t ps h k)
]

AllKnown-put_tree :
    (lock : Lockfile) (name : String) (t : Tree) (packs : Installed)
    → lookup name lock ≢ none
    → AllKnown lock packs
    → AllKnown lock (put_tree name t packs)
unfolding put_tree
AllKnown-put_tree lock name t none h k = (h, tt)
AllKnown-put_tree lock name t (some packs) h k = All-Known-put lock name t packs h k

module _ (opts : InstallOptions) (proper : IsProper opts) (lock : Lockfile) where
  -- What a pack that is installed does to the directory of another, and to a lock that knows all.
  abbrev Steps : String → Installed → Installed → Type 0
  Steps name packs p =
      ((j : String) → (name == j) ≡ false → installed_tree j p ≡ installed_tree j packs)
      × (AllKnown lock packs → AllKnown lock p)

  put_tree-Steps :
      (name : String) (t : Tree) (packs p : Installed)
      → lookup name lock ≢ none
      → p ≡ put_tree name t packs
      → Steps name packs p
  put_tree-Steps name t packs p h q = (
    λ j other.
        ap (installed_tree j) q ∙ installed_tree-put_tree name j t packs ∙ if_false _ _ other,
    λ k. subst (AllKnown lock) (sym q) (AllKnown-put_tree lock name t packs h k),
  )

  install_pack-Steps :
      (name : String) (packs p : Installed) (r r' : InstallResult) (o : Option LockEntry)
      → lookup name lock ≡ o
      → install_pack opts name o packs r ≡ installs p r'
      → Steps name packs p
  unfolding install_pack packs_of
  install_pack-Steps name packs p r r' none l e =
      let same = ap packs_of e in
      (λ j other. sym (ap (installed_tree j) same), λ k. subst (AllKnown lock) same k)
  install_pack-Steps name packs p r r' (some entry) l e =
      let (source, u, h, s, q) =
        subst (Copies opts name entry packs) e
          (install_pack-Copies opts proper name entry packs r) in
      put_tree-Steps name (copy_of opts name source packs).files packs p (λ n. absurd (cc)) q

  pub install_all-Steps :
      (snapshot packs packs' : Installed) (names : List String) (r r' : InstallResult)
      → install_all opts snapshot lock names packs r ≡ (packs', finished r')
      → ((j : String) → count j names ≡ 0 → installed_tree j packs' ≡ installed_tree j packs)
        × (AllKnown lock packs → AllKnown lock packs')
  unfolding install_all
  install_all-Steps snapshot packs packs' [] r r' e =
      let same = ap (λ x. x.0) e in
      (λ j h. sym (ap (installed_tree j) same), λ k. subst (AllKnown lock) same k)
  install_all-Steps snapshot packs packs' (name ∷ names) r r' e =
      let (p, q, o, rest) =
        after_pack-finished (rollback opts.removal opts.restoring snapshot) packs' r' _ _ e in
      let step = install_pack-Steps name packs p r q (lookup name lock) refl o in
      let later = install_all-Steps snapshot p packs' names q r' rest in
      (λ j h. later.0 j (ground arith) ∙ step.0 j (ground arith), λ k. later.1 (step.1 k))

  -- A locked pack that the run goes through once, and that was not installed, is restored.
  install_all-Restored :
      (snapshot packs packs' : Installed) (names : List String) (r r' : InstallResult) (n : String)
      (entry : LockEntry)
      → lookup n lock ≡ some entry
      → count n names ≡ 1
      → installed_tree n packs ≡ none
      → install_all opts snapshot lock names packs r ≡ (packs', finished r')
      → Restored opts packs' n entry
  unfolding install_all
  install_all-Restored snapshot packs packs' [] r r' n entry l c fresh e = absurd (omega arith)
  install_all-Restored snapshot packs packs' (name ∷ names) r r' n entry l c fresh e =
      let (p, q, o, rest) =
        after_pack-finished (rollback opts.removal opts.restoring snapshot) packs' r' _ _ e in
      elim (Bool-cases (name == n)) [
        | inl here ↦
            let found = ap (λ x. lookup x lock) ((eq_iff name n).0 here) ∙ l in
            let same = (eq_iff name n).0 here in
            let copies =
              subst (Copies opts name entry packs)
                (sym (ap (λ x. install_pack opts name x packs r) found) ∙ o)
                (install_pack-Copies opts proper name entry packs r) in
            let (files, there, hash) =
              subst (λ x. Restored opts p x entry) same
                (Copies-Restored opts name entry packs p q copies
                  (ap (λ x. installed_tree x packs) same ∙ fresh)) in
            (
              files,
              (install_all-Steps snapshot p packs' names q r' rest).0 n (ground arith) ∙ there,
              hash,
            )
        | inr other ↦
            install_all-Restored snapshot p packs' names q r' n entry l (ground arith)
              ((install_pack-Steps name packs p r q (lookup name lock) refl o).0 n other ∙ fresh)
              rest
      ]

  -- An install that finishes is the loop over the declared names.
  pub install-finished :
      (declared : List (String × String)) (packs packs' : Installed) (r' : InstallResult)
      → install opts (some lock) (holds declared) packs ≡ (packs', finished r')
      → (r : InstallResult) × (install_all opts packs lock (names_of declared) packs r
          ≡ (packs', finished r'))
  unfolding install
  install-finished declared packs packs' r' e = elim (Bool-cases (can_snapshot opts packs)) [
    | inl c ↦ (_, sym (if_true _ _ c) ∙ e)
    | inr c ↦ absurd (cc (sym (if_false _ _ c) ∙ e))
  ]

  -- If an install finishes, each pack that backstop.yml declares and the lock records, and that was
  -- not installed before, is installed with the digest that the lock records. The directories that
  -- its sources come from hold no path twice, and backstop.yml no name twice.
  pub install-Restored :
      (declared : List (String × String)) (packs packs' : Installed) (r' : InstallResult)
      (n : String) (entry : LockEntry)
      → Unique declared
      → install opts (some lock) (holds declared) packs ≡ (packs', finished r')
      → lookup n declared ≢ none
      → lookup n lock ≡ some entry
      → installed_tree n packs ≡ none
      → Restored opts packs' n entry
  install-Restored declared packs packs' r' n entry u e d l fresh =
      let (r, q) = install-finished declared packs packs' r' e in
      install_all-Restored packs packs packs' (names_of declared) r r' n entry l
        (count-names_of n declared u d) fresh q
