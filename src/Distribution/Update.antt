-- ===== src/Distribution/Update.antt =====
-- pkg/pack/distribution: `pack update` (`(*UpdateCommand).Run` of command.go) and what it shares
-- with `pack upgrade`: the replacement of an installed pack and its record in the lock.
pub mod Placed
pub mod Recorded
use backstop_core.Prelude.{
  String, Bool, true, false, not, ◌&&◌, List, [], ◌∷◌, ◌++◌, Option, none, some, ◌==◌, is_empty,
  if◌then◌else◌, lookup, put, erase,
}
use backstop_core.Text.Numbers.{concat}
use backstop_core.Distribution.Versions.{resolve_git_url}
use backstop_core.Distribution.Reference.{tag_of}
use backstop_core.Distribution.Tree.{
  Stored, holds, stored_value, Tree, Copied, copy_dir, compute_content_hash,
}
use backstop_core.Distribution.Lockfile.{
  LockEntry, Lockfile, locked_entry_for, recorded_coordinate_for, coordinate_for_entry,
}
use backstop_core.Distribution.Verify.{Installed, installed_tree}
use backstop_core.Distribution.Install.{Manifest, put_tree}
use backstop_core.Distribution.Project.{Project, Surroundings, read_pack_version, put_version}
use backstop_core.Distribution.Remove.{erase_tree}
use backstop_core.Distribution.Identity.{
  RemoteIdentity, Identified, identified, IdentityRefusal, read_manifest_identity,
  validate_remote_identity,
}
use backstop_core.Distribution.Tamper.{TamperChange, detect_tamper}
use backstop_core.Distribution.Services.{Services, run_validation_on_scratch_copy}

pub record UpdateResult : Type 0 where
  pub old_version : String
  pub new_version : String
  pub content_hash : String
  pub warnings : List String

pub data UpdateError : Type 0 where
  unknown_version not_resolved major_bump not_cloned not_valid not_compared not_copied
        yml_not_written lock_not_written :
      UpdateError
  not_identified : IdentityRefusal → UpdateError
  tampered : List TamperChange → UpdateError

pub data UpdateEnding : Type 0 where
  updated : UpdateResult → UpdateEnding
  local_pack : UpdateEnding
  up_to_date : List String → UpdateEnding
  refused : UpdateError → UpdateEnding

abbrev pub lock_or_empty : Option Lockfile → Lockfile
lock_or_empty none = []
lock_or_empty (some lock) = lock

abbrev pub warnings_of : Option String → List String
warnings_of none = []
warnings_of (some text) = text ∷ []

-- The warning about a name that is not the coordinate.
unfoldable pub diverged_warning : RemoteIdentity → String
unfolding concat
diverged_warning i = concat (
    "pack " ∷ i.coordinate ∷ " declares the name " ∷ i.manifest_name
    ∷ " in its manifest; it is installed as " ∷ i.install_name ∷ " at .backstop/packs/"
    ∷ i.install_name ∷ [])

module _ (env : Surroundings) where
  -- `replaceInstalledPack`: the old directory is removed first.
  abbrev pub replaced : String → Copied → Project → Project × Option String
  replaced name c p =
      let p' = record p { packs = put_tree name c.files (erase_tree name p.packs) } in
      (p', if c.succeeded then compute_content_hash env.sha c.files else none)

  abbrev pub replace_unless_stuck : String → Tree → Option Tree → Project → Project × Option String
  replace_unless_stuck name source (some left) p =
      (record p { packs = put_tree name left p.packs }, none)
  replace_unless_stuck name source none p = replaced name (copy_dir (env.write name) source []) p

  unfoldable pub replace_installed_pack : String → Tree → Project → Project × Option String
  unfolding copy_dir compute_content_hash put_tree
  replace_installed_pack name source p = replace_unless_stuck name source (env.stuck name) p

  abbrev pub git_entry : String → String → String → String → LockEntry
  git_entry name version hash coordinate = record {
    name = name;
    version = version;
    git_ref = some (tag_of version);
    content_hash = hash;
    source_type = "git";
    install_date = env.now;
    local_path = "";
    source_coordinate = coordinate;
  }

  -- `recordGitPackInLock`; `none` is the error of the write.
  unfoldable pub record_git_pack_in_lock :
      String → String → String → String → Stored Lockfile → Option (Stored Lockfile)
  unfolding put
  record_git_pack_in_lock name version hash coordinate lock =
      if env.can_write_lock
      then some (
          holds
            (put name (git_entry name version hash coordinate) (lock_or_empty (stored_value lock))))
      else none

  abbrev pub with_lock : UpdateResult → Option (Stored Lockfile) → Project → Project × UpdateEnding
  with_lock r none p = (p, refused lock_not_written)
  with_lock r (some lock) p = (record p { lock = lock }, updated r)

  abbrev pub with_yml :
      String → String → UpdateResult → Option Manifest → Project → Project × UpdateEnding
  with_yml name install r none p = (p, refused yml_not_written)
  with_yml name install r (some yml) p =
      if env.can_write_yml
      then with_lock r
          (record_git_pack_in_lock install r.new_version r.content_hash
            (recorded_coordinate_for (stored_value p.lock) name) p.lock)
          (record p { yml = yml })
      else (p, refused yml_not_written)

  -- The new version and digest are recorded, backstop.yml first.
  abbrev pub record_update :
      String → String → UpdateResult → Project × Option String → Project × UpdateEnding
  record_update name install r (p, none) = (p, refused not_copied)
  record_update name install r (p, some hash) =
      let r' = record r { content_hash = hash } in
      with_yml name install r' (put_version install r.new_version p.yml) p

  module _ (s : Services) (acknowledge : Bool) where
    abbrev pub if_untampered :
        Option (List TamperChange) → Project → Project × UpdateEnding → Project × UpdateEnding
    if_untampered none p done = (p, refused not_compared)
    if_untampered (some changes) p done =
        if not (is_empty changes) && not acknowledge then (p, refused (tampered changes)) else done

    -- The tamper check against what is installed, if anything is.
    abbrev pub tamper_check :
        Option Tree → Tree → Project → Project × UpdateEnding → Project × UpdateEnding
    tamper_check none new p done = done
    tamper_check (some old) new p done = if_untampered (detect_tamper s.rules_of old new) p done

    abbrev pub identified_update :
        String → UpdateResult → Tree → Identified → Project → Project × UpdateEnding
    identified_update name r new (Identified.refused e) p = (p, refused (not_identified e))
    identified_update name r new (identified i) p =
        let r' = record r {
          warnings = r.warnings ++ (if i.diverged then diverged_warning i ∷ [] else []);
        } in
        if run_validation_on_scratch_copy s new
        then tamper_check (installed_tree name p.packs) new p
            (record_update name i.install_name r' (replace_installed_pack i.install_name new p))
        else (p, refused not_valid)

    abbrev pub cloned_update :
        String → String → UpdateResult → Option Tree → Project → Project × UpdateEnding
    cloned_update name coordinate r none p = (p, refused not_cloned)
    cloned_update name coordinate r (some new) p =
        identified_update name r new
          (validate_remote_identity coordinate r.new_version
            (read_manifest_identity (s.manifest_fields new)))
          p

    abbrev pub resolved_update :
        String → String → String → List String → Option String → Project → Project × UpdateEnding
    resolved_update name coordinate current warnings none p = (p, refused not_resolved)
    resolved_update name coordinate current warnings (some resolved) p =
        if resolved == current
        then (p, up_to_date warnings)
        else if s.is_major_bump current resolved
        then (p, refused major_bump)
        else cloned_update name coordinate
            (record {
              old_version = current;
              new_version = resolved;
              content_hash = "";
              warnings = warnings;
            })
            (s.clone (resolve_git_url coordinate) (tag_of resolved)) p

    abbrev pub versioned_update : String → Option (String × Bool) → Project → Project × UpdateEnding
    versioned_update name none p = (p, refused unknown_version)
    versioned_update name (some (current, true)) p = (p, local_pack)
    versioned_update name (some (current, false)) p =
        let (coordinate, warning) =
          coordinate_for_entry name (locked_entry_for (stored_value p.lock) name) in
        resolved_update name coordinate current (warnings_of warning) (s.resolve coordinate current)
          p

    -- `(*UpdateCommand).Run`: the project it leaves, and how it ends.
    unfoldable pub update : String → Project → Project × UpdateEnding
    unfolding read_pack_version record_git_pack_in_lock replace_installed_pack diverged_warning
        coordinate_for_entry locked_entry_for recorded_coordinate_for validate_remote_identity
        read_manifest_identity run_validation_on_scratch_copy installed_tree detect_tamper erase
    update name p = versioned_update name (read_pack_version p.yml name) p
