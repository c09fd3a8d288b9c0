-- ===== src/Distribution/Upgrade.antt =====
-- pkg/pack/distribution: `pack upgrade` (`(*UpgradeCommand).Run` of command.go).
use backstop_core.Prelude.{
  String, Bool, true, false, not, List, [], ◌∷◌, ◌++◌, Option, none, some, is_empty, length, ℕ, map,
  if◌then◌else◌,
}
use backstop_core.Distribution.Versions.{resolve_git_url}
use backstop_core.Distribution.Reference.{tag_of, parse_pack_ref}
use backstop_core.Distribution.Tree.{Stored, holds, stored_value, Tree}
use backstop_core.Distribution.Lockfile.{
  Lockfile, locked_entry_for, recorded_coordinate_for, coordinate_for_entry,
}
use backstop_core.Distribution.Install.{Manifest}
use backstop_core.Distribution.Project.{
  Project, ProvenanceEntry, Surroundings, read_provenance, read_pack_version, put_version,
}
use backstop_core.Distribution.Config.{ConfigConflict, MergeResult, Configs, merge_tool_config}
use backstop_core.Distribution.Identity.{
  Identified, identified, IdentityRefusal, read_manifest_identity, validate_remote_identity,
}
use backstop_core.Distribution.Services.{Services, run_validation_on_scratch_copy}
use backstop_core.Distribution.Update.{
  warnings_of, diverged_warning, replace_installed_pack, record_git_pack_in_lock,
}

pub record UpgradeResult : Type 0 where
  pub old_version : String
  pub new_version : String
  pub content_hash : String
  pub remediation_bundle : String
  pub baselined_violations : ℕ
  pub warnings : List String

pub data UpgradeError : Type 0 where
  unknown_version local_pack not_cloned not_valid not_scanned not_generated bad_provenance
        not_merged not_copied provenance_not_written yml_not_written lock_not_written :
      UpgradeError
  not_identified : IdentityRefusal → UpgradeError
  conflicts : List ConfigConflict → UpgradeError

pub data UpgradeEnding : Type 0 where
  upgraded : UpgradeResult → UpgradeEnding
  refused : UpgradeError → UpgradeEnding

abbrev with_bundle : String → UpgradeResult → UpgradeResult
with_bundle bundle r = record r { remediation_bundle = bundle }

module _ (env : Surroundings) (s : Services) (name : String) where
  abbrev locked_upgrade :
      UpgradeResult → Option (Stored Lockfile) → Project → Project × UpgradeEnding
  locked_upgrade r none p = (p, refused lock_not_written)
  locked_upgrade r (some lock) p = (record p { lock = lock }, upgraded r)

  abbrev versioned_upgrade :
      String → UpgradeResult → Option Manifest → Project → Project × UpgradeEnding
  versioned_upgrade install r none p = (p, refused yml_not_written)
  versioned_upgrade install r (some yml) p =
      if env.can_write_yml
      then locked_upgrade r
          (record_git_pack_in_lock env install r.new_version r.content_hash
            (recorded_coordinate_for (stored_value p.lock) name) p.lock)
          (record p { yml = yml })
      else (p, refused yml_not_written)

  abbrev of_install : String → ProvenanceEntry → ProvenanceEntry
  of_install install entry = record entry { source_pack = install }

  -- What follows the replacement of the pack: the provenance, backstop.yml and the lock.
  abbrev recorded_upgrade :
      String
      → UpgradeResult
      → List ProvenanceEntry
      → Project × Option String
      → Project × UpgradeEnding
  recorded_upgrade install r entries (p, none) = (p, refused not_copied)
  recorded_upgrade install r entries (p, some hash) =
      if env.can_write_provenance
      then versioned_upgrade install (record r { content_hash = hash })
          (put_version install r.new_version p.yml) (record p { provenance = holds entries })
      else (p, refused provenance_not_written)

  -- A conflict is an error here too, and the files that the merge has written stay written.
  abbrev merged_upgrade :
      String
      → UpgradeResult
      → Tree
      → List ProvenanceEntry
      → Configs × Option MergeResult
      → Project
      → Project × UpgradeEnding
  merged_upgrade install r new entries (configs, none) p =
      (record p { configs = configs }, refused not_merged)
  merged_upgrade install r new entries (configs, some m) p =
      let p' = record p { configs = configs } in
      if not (is_empty m.conflicts)
      then (p', refused (conflicts m.conflicts))
      else recorded_upgrade install r (entries ++ map (of_install install) m.merged)
          (replace_installed_pack env install new p')

  abbrev config_upgrade :
      String
      → UpgradeResult
      → Tree
      → Option (List ProvenanceEntry)
      → Project
      → Project × UpgradeEnding
  config_upgrade install r new none p = (p, refused bad_provenance)
  config_upgrade install r new (some entries) p =
      merged_upgrade install r new entries (merge_tool_config env (s.tool_config new) p.configs) p

  abbrev remedied_upgrade :
      String → UpgradeResult → Tree → Option String → Project → Project × UpgradeEnding
  remedied_upgrade install r new none p = (p, refused not_generated)
  remedied_upgrade install r new (some bundle) p =
      config_upgrade install (with_bundle bundle r) new (read_provenance p.provenance) p

  -- The scan comes before the first write. A bundle is generated if it finds something.
  abbrev scanned_upgrade :
      String → UpgradeResult → Tree → Option (List String) → Project → Project × UpgradeEnding
  scanned_upgrade install r new none p = (p, refused not_scanned)
  scanned_upgrade install r new (some violations) p =
      remedied_upgrade install (record r { baselined_violations = length violations }) new
        (if is_empty violations then some "" else s.generate violations) p

  abbrev identified_upgrade : UpgradeResult → Tree → Identified → Project → Project × UpgradeEnding
  identified_upgrade r new (Identified.refused e) p = (p, refused (not_identified e))
  identified_upgrade r new (identified i) p =
      let r' = record r {
        warnings = r.warnings ++ (if i.diverged then diverged_warning i ∷ [] else []);
      } in
      if run_validation_on_scratch_copy s new
      then scanned_upgrade i.install_name r' new (s.scan new) p
      else (p, refused not_valid)

  abbrev cloned_upgrade : String → UpgradeResult → Option Tree → Project → Project × UpgradeEnding
  cloned_upgrade coordinate r none p = (p, refused not_cloned)
  cloned_upgrade coordinate r (some new) p =
      identified_upgrade r new
        (validate_remote_identity coordinate r.new_version
          (read_manifest_identity (s.manifest_fields new)))
        p

  abbrev targeted_upgrade : String → Option (String × Bool) → Project → Project × UpgradeEnding
  targeted_upgrade target none p = (p, refused unknown_version)
  targeted_upgrade target (some (current, true)) p = (p, refused local_pack)
  targeted_upgrade target (some (current, false)) p =
      let (coordinate, warning) =
        coordinate_for_entry name (locked_entry_for (stored_value p.lock) name) in
      cloned_upgrade coordinate
        (record {
          old_version = current;
          new_version = target;
          content_hash = "";
          remediation_bundle = "";
          baselined_violations = 0;
          warnings = warnings_of warning;
        })
        (s.clone (resolve_git_url coordinate) (tag_of target)) p

-- `(*UpgradeCommand).Run`: the project it leaves, and how it ends.
unfoldable pub upgrade : Surroundings → Services → String → Project → Project × UpgradeEnding
unfolding validate_remote_identity read_manifest_identity run_validation_on_scratch_copy
    parse_pack_ref read_pack_version merge_tool_config record_git_pack_in_lock
    replace_installed_pack diverged_warning coordinate_for_entry locked_entry_for
    recorded_coordinate_for
upgrade env s ref p =
    let (name, target) = parse_pack_ref ref in
    targeted_upgrade env s name target (read_pack_version p.yml name) p
