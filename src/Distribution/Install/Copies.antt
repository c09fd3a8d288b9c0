-- ===== src/Distribution/Install/Copies.antt =====
-- What the install of one pack does to the packs directory.
use backstop_core.Prelude.{
  String, true, Option, none, some, ◌≡◌, refl, ap, ◌∙◌, inl, inr, ◌==◌, eq_iff, eq_refl,
  if◌then◌else◌, Bool-cases, lookup, lookup-put,
}
use backstop_core.Distribution.Tree.{Tree, Copied, copy_dir, compute_content_hash}
use backstop_core.Distribution.Tree.Copy.{Unique, compute_content_hash-copy_dir}
use backstop_core.Distribution.Lockfile.{LockEntry, remote_url_for_entry}
use backstop_core.Distribution.Verify.{Installed, installed_tree}
use backstop_core.Distribution.Install.{
  InstallOptions, InstallResult, InstallError, Installing, installs, errs, panics, put_tree,
  files_or_none, copy_pack, on_hash, install_source, from_source, materialize_local_pack, clone_at,
  install_git_pack, install_pack,
}

pub installed_tree-put_tree :
    (m j : String) (t : Tree) (packs : Installed)
    → installed_tree j (put_tree m t packs) ≡ (if m == j then some t else installed_tree j packs)
unfolding put_tree installed_tree lookup
installed_tree-put_tree m j t none = refl
installed_tree-put_tree m j t (some packs) = lookup-put m j t packs

-- The directories that sources are taken from hold no path twice.
pub record IsProper (opts : InstallOptions) : Type 0 where
  pub directories : (path : String) (t : Tree) → opts.directory path ≡ some t → Unique t
  pub projects : (path : String) (t : Tree) → opts.in_project path ≡ some t → Unique t
  pub caches : (name : String) (t : Tree) → opts.cached name ≡ some t → Unique t
  pub clones : (url ref : String) (t : Tree) → opts.clone url ref ≡ some t → Unique t

module _ (opts : InstallOptions) where
  -- The copy of a source into what is there of a pack.
  abbrev pub copy_of : String → Tree → Installed → Copied
  copy_of name source packs =
      copy_dir (opts.write name) source (files_or_none (installed_tree name packs))

  -- Where a pack was installed, its source has the locked digest and was copied.
  abbrev pub Copies : String → LockEntry → Installed → Installing → Type 0
  Copies name entry packs (installs packs' r) =
      (source : Tree) × Unique source
      × (compute_content_hash opts.sha source ≡ some entry.content_hash)
      × ((copy_of name source packs).succeeded ≡ true)
      × (packs' ≡ put_tree name (copy_of name source packs).files packs)
  Copies name entry packs (errs packs' e) = Unit
  Copies name entry packs (panics packs' n) = Unit

  copy_pack-Copies :
      (name : String) (entry : LockEntry) (source : Tree) (packs : Installed) (r : InstallResult)
      → Unique source
      → compute_content_hash opts.sha source ≡ some entry.content_hash
      → Copies name entry packs (copy_pack opts name source packs r)
  unfolding copy_pack
  copy_pack-Copies name entry source packs r u h =
      elim (Bool-cases (copy_of name source packs).succeeded) [
        | inl e ↦ rw e (source, u, h, e, refl)
        | inr e ↦ rw e tt
      ]

  on_hash-Copies :
      (name : String) (entry : LockEntry) (source : Tree) (packs : Installed) (r : InstallResult)
      (o : Option String)
      → Unique source
      → compute_content_hash opts.sha source ≡ o
      → Copies name entry packs (on_hash opts name entry.content_hash source packs r o)
  on_hash-Copies name entry source packs r none u h = tt
  on_hash-Copies name entry source packs r (some hash) u h =
      elim (Bool-cases (hash == entry.content_hash)) [
        | inl e ↦ rw e (
            copy_pack-Copies name entry source packs r u
              (h ∙ ap some ((eq_iff hash entry.content_hash).0 e)))
        | inr e ↦ rw e tt
      ]

  from_source-Copies :
      (e : InstallError) (name : String) (entry : LockEntry) (packs : Installed) (r : InstallResult)
      (o : Option Tree)
      → ((t : Tree) → o ≡ some t → Unique t)
      → Copies name entry packs (from_source opts e name entry packs r o)
  unfolding install_source
  from_source-Copies e name entry packs r none u = tt
  from_source-Copies e name entry packs r (some source) u =
      on_hash-Copies name entry source packs r (compute_content_hash opts.sha source)
        (u source refl) refl

  module _ (proper : IsProper opts) where
    materialize-Copies :
        (name : String) (entry : LockEntry) (packs : Installed) (r : InstallResult)
        → Copies name entry packs (materialize_local_pack opts name entry packs r)
    unfolding materialize_local_pack
    materialize-Copies name entry packs r = elim (Bool-cases (opts.local_pack_dir == "")) [
      | inr e ↦ rw e (
          from_source-Copies _ name entry packs r (opts.directory opts.local_pack_dir)
            (proper.directories opts.local_pack_dir))
      | inl e ↦ elim (Bool-cases (entry.local_path == "")) [
        | inl f ↦ rw (e, f) tt
        | inr f ↦
            rw (e, f)
              (from_source-Copies _ name entry packs r (opts.in_project entry.local_path)
                (proper.projects entry.local_path))
      ]
    ]

    clone_at-Copies :
        (name : String) (entry : LockEntry) (url : String) (packs : Installed) (r : InstallResult)
        (o : Option String)
        → Copies name entry packs (clone_at opts name entry url packs r o)
    clone_at-Copies name entry url packs r none = tt
    clone_at-Copies name entry url packs r (some ref) =
        from_source-Copies _ name entry packs r (opts.clone url ref) (proper.clones url ref)

    install_git_pack-Copies :
        (name : String) (entry : LockEntry) (packs : Installed) (r : InstallResult)
        → Copies name entry packs (install_git_pack opts name entry packs r)
    unfolding install_git_pack
    install_git_pack-Copies name entry packs r = elim (Bool-cases (opts.cache_path == "")) [
      | inr e ↦
          rw e (from_source-Copies _ name entry packs r (opts.cached name) (proper.caches name))
      | inl e ↦
          rw e
            (clone_at-Copies name entry (remote_url_for_entry name entry).0 packs _ entry.git_ref)
    ]

    pub install_pack-Copies :
        (name : String) (entry : LockEntry) (packs : Installed) (r : InstallResult)
        → Copies name entry packs (install_pack opts name (some entry) packs r)
    unfolding install_pack
    install_pack-Copies name entry packs r = elim (Bool-cases (entry.source_type == "local")) [
      | inl e ↦ rw e (materialize-Copies name entry packs r)
      | inr e ↦ rw e (install_git_pack-Copies name entry packs r)
    ]

  -- What is installed of a locked pack has the locked digest.
  abbrev pub Restored : Installed → String → LockEntry → Type 0
  Restored packs name entry =
      (files : Tree) × (installed_tree name packs ≡ some files)
      × (compute_content_hash opts.sha files ≡ some entry.content_hash)

  -- A pack that was not there is restored.
  pub Copies-Restored :
      (name : String) (entry : LockEntry) (packs packs' : Installed) (r : InstallResult)
      → Copies name entry packs (installs packs' r)
      → installed_tree name packs ≡ none
      → Restored packs' name entry
  Copies-Restored name entry packs packs' r (source, u, h, e, q) fresh =
      let same = ap (λ o. copy_dir (opts.write name) source (files_or_none o)) fresh in
      (
        (copy_of name source packs).files,
        ap (installed_tree name) q
            ∙ installed_tree-put_tree name name (copy_of name source packs).files packs
            ∙ rw eq_refl,
        ap (λ c. compute_content_hash opts.sha c.files) same
            ∙ compute_content_hash-copy_dir opts.sha (opts.write name) source u (rw same at e)
            ∙ h,
      )
