-- ===== src/Distribution/Remove.antt =====
-- pkg/pack/distribution/remove.go: `pack remove`.
pub mod Frame
use backstop_core.Prelude.{
  String, Bool, true, false, not, List, [], ◌∷◌, ◌++◌, Option, none, some, ◌==◌, if◌then◌else◌,
  keep, lookup, erase, put,
}
use backstop_core.Text.Numbers.{concat}
use backstop_core.Distribution.Tree.{Stored, missing, bad, holds, Tree}
use backstop_core.Distribution.Lockfile.{Lockfile}
use backstop_core.Distribution.Verify.{Installed}
use backstop_core.Distribution.Install.{Manifest, put_tree}
use backstop_core.Distribution.Project.{
  Project, ProvenanceEntry, Settings, Surroundings, read_provenance, is_pack_installed,
}

pub record RemoveResult : Type 0 where
  pub reverted_settings : List String
  pub warnings : List String

pub data RemoveError : Type 0 where
  not_installed unreadable_provenance unreadable_lock not_deleted yml_not_written lock_not_written
        provenance_not_written :
      RemoveError

pub data RemoveEnding : Type 0 where
  removed : RemoveResult → RemoveEnding
  refused : RemoveError → RemoveEnding

abbrev pub no_settings : RemoveResult
no_settings = record { reverted_settings = []; warnings = [] }

abbrev add_reverted : String → RemoveResult → RemoveResult
add_reverted key r = record r { reverted_settings = r.reverted_settings ++ key ∷ [] }

modified_warning : ProvenanceEntry → String
unfolding concat
modified_warning entry = concat (
    entry.config_file ∷ ": " ∷ entry.setting_key ∷ " was modified since install (not reverting)"
    ∷ [])

abbrev add_warning : ProvenanceEntry → RemoveResult → RemoveResult
add_warning entry r = record r { warnings = r.warnings ++ modified_warning entry ∷ [] }

-- `removeFromBackstopYml`, on the packs of a file that is there.
abbrev pub erase_version : String → Manifest → Option Manifest
erase_version name (holds packs) = some (holds (erase name packs))
erase_version name _ = none

abbrev pub erase_entry : String → Stored Lockfile → Stored Lockfile
erase_entry name (holds lock) = holds (erase name lock)
erase_entry name lock = lock

abbrev pub erase_tree : String → Installed → Installed
erase_tree name none = none
erase_tree name (some packs) = some (erase name packs)

abbrev pub is_of_other : String → ProvenanceEntry → Bool
is_of_other name entry = not (entry.source_pack == name)

module _ (env : Surroundings) where
  abbrev against : ProvenanceEntry → RemoveResult → Option String → RemoveResult
  against entry r none = add_reverted entry.setting_key r
  against entry r (some value) =
      if env.value_hash value == entry.value_hash
      then add_reverted entry.setting_key r
      else add_warning entry r

  abbrev check_config : ProvenanceEntry → RemoveResult → Option (Stored Settings) → RemoveResult
  check_config entry r (some (holds settings)) = against entry r (lookup entry.setting_key settings)
  check_config entry r _ = add_reverted entry.setting_key r

  -- The loop over the provenance: which settings count as reverted, and which were modified.
  unfoldable pub check_settings :
      String → List (String × Stored Settings) → List ProvenanceEntry → RemoveResult → RemoveResult
  unfolding lookup modified_warning
  check_settings name configs [] r = r
  check_settings name configs (entry ∷ entries) r = check_settings name configs entries (
      if entry.source_pack == name
      then check_config entry r (lookup entry.config_file configs)
      else r)

  abbrev pub write_provenance :
      String → List ProvenanceEntry → RemoveResult → Project → Project × RemoveEnding
  write_provenance name entries r p =
      if env.can_write_provenance
      then (record p { provenance = holds (keep (is_of_other name) entries) }, removed r)
      else (p, refused provenance_not_written)

  abbrev pub write_lock :
      String
      → List ProvenanceEntry
      → RemoveResult
      → Stored Lockfile
      → Project
      → Project × RemoveEnding
  write_lock name entries r (holds lock) p =
      if env.can_write_lock
      then write_provenance name entries r (record p { lock = holds (erase name lock) })
      else (p, refused lock_not_written)
  write_lock name entries r _ p = write_provenance name entries r p

  abbrev pub write_yml :
      String
      → List ProvenanceEntry
      → RemoveResult
      → Option Manifest
      → Project
      → Project × RemoveEnding
  write_yml name entries r none p = (p, refused yml_not_written)
  write_yml name entries r (some yml) p =
      if env.can_write_yml
      then write_lock name entries r p.lock (record p { yml = yml })
      else (p, refused yml_not_written)

  -- The removal of the directory, and what follows it.
  abbrev pub delete_pack :
      String → List ProvenanceEntry → RemoveResult → Option Tree → Project → Project × RemoveEnding
  delete_pack name entries r (some left) p =
      (record p { packs = put_tree name left p.packs }, refused not_deleted)
  delete_pack name entries r none p =
      write_yml name entries r (erase_version name p.yml)
        (record p { packs = erase_tree name p.packs })

  abbrev pub unless_bad_lock :
      String
      → List ProvenanceEntry
      → RemoveResult
      → Stored Lockfile
      → Project
      → Project × RemoveEnding
  unless_bad_lock name entries r bad p = (p, refused unreadable_lock)
  unless_bad_lock name entries r _ p = delete_pack name entries r (env.stuck name) p

  abbrev pub with_provenance :
      String → Option (List ProvenanceEntry) → Project → Project × RemoveEnding
  with_provenance name none p = (p, refused unreadable_provenance)
  with_provenance name (some entries) p =
      unless_bad_lock name entries (check_settings name p.configs entries no_settings) p.lock p

  -- `Remove`: the project it leaves, and how it ends.
  unfoldable pub remove : String → Project → Project × RemoveEnding
  unfolding is_pack_installed check_settings erase put_tree keep
  remove name p =
      if is_pack_installed p.yml name
      then with_provenance name (read_provenance p.provenance) p
      else (p, refused not_installed)
