-- ===== src/Distribution/Install.antt =====
-- pkg/pack/distribution: `pack install` (install.go, and `(*InstallCommand).Run` of command.go).
-- The directories of sources, the cache and the repositories are arguments: `none` is a directory
-- that is absent, or a clone that fails.
pub mod Copies
pub mod Names
pub mod Rollback
pub mod Restores
pub mod Verified
use backstop_core.Prelude.{
  String, Bool, true, false, not, List, [], ◌∷◌, ◌++◌, Option, none, some, ◌==◌, if◌then◌else◌, map,
  lookup, put,
}
use backstop_core.Text.Numbers.{concat}
use backstop_core.Text.Split.{sort_strings}
use backstop_core.Distribution.Tree.{
  Stored, missing, bad, holds, Tree, Write, Copied, copy_dir, compute_content_hash,
}
use backstop_core.Distribution.Lockfile.{LockEntry, Lockfile, remote_url_for_entry}
use backstop_core.Distribution.Verify.{Installed, installed_tree}

pub record InstallResult : Type 0 where
  pub installed_packs : List String
  pub warnings : List String

pub data InstallError : Type 0 where
  no_lockfile no_manifest no_snapshot : InstallError
  no_recorded_source source_absent not_cached not_cloned not_hashed hash_differs not_copied :
      String → InstallError

-- How a run ends. A `nil` git reference that is dereferenced is a panic, at which nothing is rolled
-- back.
pub data Ending : Type 0 where
  finished : InstallResult → Ending
  failed : InstallError → Ending
  panicked : String → Ending

-- `readManifestPacks`: backstop.yml, as the versions that it declares of packs.
abbrev pub Manifest : Type 0
Manifest = Stored (List (String × String))

-- A step of a rollback: it is done, or it fails and leaves the packs directory in any state.
pub data Undo : Type 0 where
  undone : Undo
  leaves : Installed → Undo

-- `InstallOptions` with what a run reads of its surroundings.
pub record InstallOptions : Type 0 where
  pub cache_path : String
  pub local_pack_dir : String
  pub sha : String → String
  pub quote : String → String
  -- the directory at a path, and at a path below the project
  pub directory : String → Option Tree
  pub in_project : String → Option Tree
  -- the pack of a name in the cache, and the clone of a URL at a tag
  pub cached : String → Option Tree
  pub clone : String → String → Option Tree
  -- the writes into the directory of a pack, and whether the packs can be copied away first
  pub write : String → String → Write
  pub snapshots : Bool
  -- how the removal and the copy of a rollback come out
  pub removal : Undo
  pub restoring : Undo

-- What one pack comes to, with the packs directory as it is then.
pub data Installing : Type 0 where
  installs : Installed → InstallResult → Installing
  errs : Installed → InstallError → Installing
  panics : Installed → String → Installing

unfoldable pub put_tree : String → Tree → Installed → Installed
unfolding put
put_tree name files none = some ((name, files) ∷ [])
put_tree name files (some packs) = some (put name files packs)

abbrev pub files_or_none : Option Tree → Tree
files_or_none none = []
files_or_none (some files) = files

abbrev pub add_installed : String → InstallResult → InstallResult
add_installed name r = record r { installed_packs = r.installed_packs ++ name ∷ [] }

abbrev pub warn : String → InstallResult → InstallResult
warn text r = record r { warnings = r.warnings ++ text ∷ [] }

abbrev pub warn_if : Option String → InstallResult → InstallResult
warn_if none r = r
warn_if (some text) r = warn text r

abbrev pub no_manifest_warning : String
no_manifest_warning =
    "no backstop.yml manifest found: nothing is declared, so nothing was installed"

abbrev pub copied : String → Copied → Installed → InstallResult → Installing
copied name c packs r =
    let packs' = put_tree name c.files packs in
    if c.succeeded then installs packs' (add_installed name r) else errs packs' (not_copied name)

unfoldable put_files : Tree → Tree → Tree
unfolding put
put_files [] files = files
put_files ((rel, file) ∷ source) files = put_files source (put rel file files)

-- The copy of a snapshot over what is there.
unfoldable put_packs : List (String × Tree) → Installed → Installed
unfolding put_tree put_files
put_packs [] packs = packs
put_packs ((name, files) ∷ snapshot) packs =
    put_packs snapshot
      (put_tree name (put_files files (files_or_none (installed_tree name packs))) packs)

-- `rollback`, from how the removal of the packs directory and the copy of the snapshot, if one was
-- taken, come out. Neither error is looked at.
unfoldable pub rollback : Undo → Undo → Installed → Installed
unfolding put_packs
rollback undone restoring none = none
rollback (leaves packs) restoring none = packs
rollback removal (leaves packs) (some snapshot) = packs
rollback undone undone (some snapshot) = some snapshot
rollback (leaves packs) undone (some snapshot) = put_packs snapshot packs

abbrev pub after_pack :
    Installed → Installing → (Installed → InstallResult → Installed × Ending) → Installed × Ending
after_pack rolled_back (installs packs r) rest = rest packs r
after_pack rolled_back (errs packs e) rest = (rolled_back, failed e)
after_pack rolled_back (panics packs name) rest = (packs, panicked name)

abbrev pub unless_declared : String → Option String → List String → List String
unless_declared name none names = name ∷ names
unless_declared name (some version) names = names

-- The names of the lock that the manifest does not declare.
unfoldable pub stale_names : List (String × String) → Lockfile → List String
unfolding lookup
stale_names declared [] = []
stale_names declared ((name, entry) ∷ lock) =
    unless_declared name (lookup name declared) (stale_names declared lock)

abbrev pub names_of : List (String × String) → List String
names_of declared = sort_strings (map (λ e. e.0) declared)

module _ (opts : InstallOptions) where
  -- The copy to the packs directory, into what is there already.
  unfoldable pub copy_pack : String → Tree → Installed → InstallResult → Installing
  unfolding copy_dir put_tree installed_tree
  copy_pack name source packs r =
      copied name (copy_dir (opts.write name) source (files_or_none (installed_tree name packs)))
        packs r

  abbrev pub on_hash :
      String → String → Tree → Installed → InstallResult → Option String → Installing
  on_hash name locked source packs r none = errs packs (not_hashed name)
  on_hash name locked source packs r (some hash) =
      if hash == locked then copy_pack name source packs r else errs packs (hash_differs name)

  -- The digest of the source against the lock, and the copy.
  unfoldable pub install_source : String → LockEntry → Tree → Installed → InstallResult → Installing
  unfolding copy_pack compute_content_hash
  install_source name entry source packs r =
      on_hash name entry.content_hash source packs r (compute_content_hash opts.sha source)

  abbrev pub from_source :
      InstallError → String → LockEntry → Installed → InstallResult → Option Tree → Installing
  from_source e name entry packs r none = errs packs e
  from_source e name entry packs r (some source) = install_source name entry source packs r

  -- `materializeLocalPack`
  unfoldable pub materialize_local_pack :
      String → LockEntry → Installed → InstallResult → Installing
  unfolding install_source
  materialize_local_pack name entry packs r =
      if not (opts.local_pack_dir == "")
      then from_source (source_absent name) name entry packs r (opts.directory opts.local_pack_dir)
      else if entry.local_path == ""
      then errs packs (no_recorded_source name)
      else from_source (source_absent name) name entry packs r (opts.in_project entry.local_path)

  abbrev pub clone_at :
      String → LockEntry → String → Installed → InstallResult → Option String → Installing
  clone_at name entry url packs r none = panics packs name
  clone_at name entry url packs r (some ref) =
      from_source (not_cloned name) name entry packs r (opts.clone url ref)

  -- A pack that is not local: from the cache, or a clone of the recorded coordinate.
  unfoldable pub install_git_pack : String → LockEntry → Installed → InstallResult → Installing
  unfolding install_source remote_url_for_entry
  install_git_pack name entry packs r =
      if not (opts.cache_path == "")
      then from_source (not_cached name) name entry packs r (opts.cached name)
      else (let (url, warning) = remote_url_for_entry name entry in
          clone_at name entry url packs (warn_if warning r) entry.git_ref)

  missing_warning : String → String
  unfolding concat
  missing_warning name = concat (
      "declared pack "
      ∷ opts.quote name
      ∷ " is missing from backstop.lock; skipping it (run 'backstop pack add' or 'pack relock' to lock it)"
      ∷ [])

  -- The body of the loop over the declared packs.
  unfoldable pub install_pack : String → Option LockEntry → Installed → InstallResult → Installing
  unfolding materialize_local_pack install_git_pack missing_warning
  install_pack name none packs r = installs packs (warn (missing_warning name) r)
  install_pack name (some entry) packs r =
      if entry.source_type == "local"
      then materialize_local_pack name entry packs r
      else install_git_pack name entry packs r

  unfoldable pub install_all :
      Installed → Lockfile → List String → Installed → InstallResult → Installed × Ending
  unfolding install_pack rollback lookup
  install_all snapshot lock [] packs r = (packs, finished r)
  install_all snapshot lock (name ∷ names) packs r =
      after_pack (rollback opts.removal opts.restoring snapshot)
        (install_pack name (lookup name lock) packs r) (install_all snapshot lock names)

  pub stale_warning : String → String
  unfolding concat
  stale_warning name = concat (
      "stale lock entry "
      ∷ opts.quote name
      ∷ " is not declared in backstop.yml; skipping it (run 'backstop pack remove' to clean it up)"
      ∷ [])

  abbrev pub can_snapshot : Installed → Bool
  can_snapshot none = true
  can_snapshot (some packs) = opts.snapshots

  abbrev pub install_declared : Lockfile → Manifest → Installed → Installed × Ending
  install_declared lock bad packs = (packs, failed no_manifest)
  install_declared lock missing packs =
      (packs, finished (record { installed_packs = []; warnings = no_manifest_warning ∷ [] }))
  install_declared lock (holds declared) packs =
      let stale = map stale_warning (sort_strings (stale_names declared lock)) in
      if can_snapshot packs
      then install_all packs lock (names_of declared) packs
          (record { installed_packs = []; warnings = stale })
      else (packs, failed no_snapshot)

  -- `Run`: the packs directory it leaves, and how it ends.
  unfoldable pub install : Option Lockfile → Manifest → Installed → Installed × Ending
  unfolding install_all stale_names stale_warning
  install none manifest packs = (packs, failed no_lockfile)
  install (some lock) manifest packs = install_declared lock manifest packs
