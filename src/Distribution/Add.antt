-- ===== src/Distribution/Add.antt =====
-- pkg/pack/distribution: `pack add` (`(*AddCommand).Run` and `resolveLocalPackSource` of
-- command.go). A lock that does not parse counts as empty, and its snapshot is what it was.
use backstop_core.Prelude.{
  String, Bool, true, false, not, List, [], ◌∷◌, ◌++◌, Option, none, some, ◌==◌, is_empty, map,
  if◌then◌else◌, lookup, put,
}
use backstop_core.Text.Numbers.{concat}
use backstop_core.Distribution.Versions.{resolve_git_url}
use backstop_core.Distribution.Reference.{
  tag_of, is_local_path, validate_pack_name, Unresolved, Resolved, resolved, unresolved,
  resolve_effective_version,
}
use backstop_core.Distribution.Tree.{
  holds, stored_value, Tree, Copied, copy_dir, compute_content_hash,
}
use backstop_core.Distribution.Lockfile.{LockEntry}
use backstop_core.Distribution.Verify.{installed_tree}
use backstop_core.Distribution.Install.{Manifest, put_tree, files_or_none}
use backstop_core.Distribution.Project.{
  Project, ProvenanceEntry, Surroundings, read_provenance, is_pack_installed_and_current,
  put_version, recorded_version,
}
use backstop_core.Distribution.Remove.{erase_tree}
use backstop_core.Distribution.Config.{ConfigConflict, MergeResult, Configs, merge_tool_config}
use backstop_core.Distribution.Identity.{
  RemoteIdentity, Identified, identified, IdentityRefusal, ManifestIdentity, named,
  read_manifest_identity, validate_remote_identity,
}
use backstop_core.Distribution.Services.{Services, run_validation_on_scratch_copy}
use backstop_core.Distribution.Update.{lock_or_empty}

pub record AddResult : Type 0 where
  pub pack_name : String
  pub version : String
  pub content_hash : String
  pub source_coordinate : String
  pub warnings : List String

pub data AddError : Type 0 where
  no_local_manifest local_identity not_cloned not_valid not_copied not_hashed bad_provenance
        not_merged provenance_not_written yml_not_written lock_not_written gitignore_not_written :
      AddError
  version_unresolved : Unresolved → AddError
  not_identified : IdentityRefusal → AddError
  conflicts : List ConfigConflict → AddError

pub data AddEnding : Type 0 where
  added : AddResult → AddEnding
  already_current : String → List String → AddEnding
  refused : AddError → AddEnding

-- What both kinds of reference come down to: the local variables of `Run`.
pub record Source : Type 0 where
  pub pack_name : String
  pub coordinate : String
  pub version : String
  pub files : Tree
  pub source_type : String
  pub git_ref : Option String
  pub local_path : String
  pub warnings : List String

add_diverged_warning : RemoteIdentity → String
unfolding concat
add_diverged_warning i = concat (
    "pack " ∷ i.coordinate ∷ " declares the name " ∷ i.manifest_name
    ∷ " in its manifest; installing it as " ∷ i.install_name ∷ " at .backstop/packs/"
    ∷ i.install_name ∷ [])

pub data Sourced : Type 0 where
  sourced : Source → Sourced
  unsourced : AddError → Sourced

module _ (s : Services) where
  abbrev local_named : String → Tree → ManifestIdentity → Option String → Sourced
  local_named ref files (named name version) (some rel) =
      if validate_pack_name name
      then sourced (record {
        pack_name = name;
        coordinate = "";
        version = "";
        files = files;
        source_type = "local";
        git_ref = none;
        local_path = rel;
        warnings = [];
      })
      else unsourced local_identity
  local_named ref files _ _ = unsourced local_identity

  abbrev local_manifest : String → Tree → Bool → Sourced
  local_manifest ref files false = unsourced no_local_manifest
  local_manifest ref files true =
      local_named ref files (read_manifest_identity (s.manifest_fields files)) (s.relative ref)

  abbrev is_there : {A : Type 0} → Option A → Bool
  is_there none = false
  is_there (some a) = true

  abbrev local_files : String → Option Tree → Sourced
  local_files ref none = unsourced no_local_manifest
  local_files ref (some files) =
      local_manifest ref files
        (if is_there (lookup "pack.yml" files) then is_there (s.tool_config files) else false)

  -- `resolveLocalPackSource`
  unfoldable pub resolve_local_pack_source : String → Sourced
  unfolding lookup validate_pack_name read_manifest_identity
  resolve_local_pack_source ref = local_files ref (s.at_path ref)

  abbrev git_identified : Tree → Identified → Sourced
  git_identified files (Identified.refused e) = unsourced (not_identified e)
  git_identified files (identified i) = sourced (record {
    pack_name = i.install_name;
    coordinate = i.coordinate;
    version = i.effective_version;
    files = files;
    source_type = "git";
    git_ref = some i.tag;
    local_path = "";
    warnings = if i.diverged then add_diverged_warning i ∷ [] else [];
  })

  abbrev git_cloned : String → String → Option Tree → Sourced
  git_cloned coordinate version none = unsourced not_cloned
  git_cloned coordinate version (some files) = git_identified files (
      validate_remote_identity coordinate version
        (read_manifest_identity (s.manifest_fields files)))

  abbrev git_resolved : Resolved → Sourced
  git_resolved (unresolved reference problem) = unsourced (version_unresolved problem)
  git_resolved (resolved coordinate version) =
      git_cloned coordinate version (s.clone (resolve_git_url coordinate) (tag_of version))

  -- The first half of `Run`: the pack that a reference stands for.
  unfoldable pub source_of : String → String → Sourced
  unfolding is_local_path resolve_local_pack_source resolve_effective_version
      validate_remote_identity read_manifest_identity resolve_git_url add_diverged_warning
  source_of ref override =
      if is_local_path ref
      then resolve_local_pack_source ref
      else git_resolved (resolve_effective_version ref override)

-- `rollback`: the directory goes, and backstop.yml, the lock and the provenance are what they were.
-- The configuration files are not among what is restored.
unfoldable pub roll_back : String → Project → Project → Project
roll_back name before p = record p {
  packs = erase_tree name p.packs;
  yml = before.yml;
  lock = before.lock;
  provenance = before.provenance;
}

abbrev of_pack : String → ProvenanceEntry → ProvenanceEntry
of_pack name entry = record entry { source_pack = name }

module _ (env : Surroundings) (s : Services) where
  abbrev rolled_back : Source → Project → AddError → Project → Project × AddEnding
  rolled_back src before e p = (roll_back src.pack_name before p, refused e)

  abbrev result_of : Source → String → AddResult
  result_of src hash = record {
    pack_name = src.pack_name;
    version = src.version;
    content_hash = hash;
    source_coordinate = src.coordinate;
    warnings = src.warnings;
  }

  abbrev entry_of : Source → String → LockEntry
  entry_of src hash = record {
    name = src.pack_name;
    version = src.version;
    git_ref = src.git_ref;
    content_hash = hash;
    source_type = src.source_type;
    install_date = env.now;
    local_path = src.local_path;
    source_coordinate = src.coordinate;
  }

  -- The entry in the lock, and the line in .gitignore: its error rolls nothing back.
  abbrev pub add_to_lock : Source → Project → String → Project → Project × AddEnding
  add_to_lock src before hash p =
      let lock = put src.pack_name (entry_of src hash) (lock_or_empty (stored_value p.lock)) in
      if env.can_write_lock
      then (
        record p { lock = holds lock },
        if env.can_write_gitignore
            then added (result_of src hash)
            else refused gitignore_not_written,
      )
      else rolled_back src before lock_not_written p

  abbrev pub add_to_yml :
      Source → Project → String → Option Manifest → Project → Project × AddEnding
  add_to_yml src before hash none p = rolled_back src before yml_not_written p
  add_to_yml src before hash (some yml) p =
      if env.can_write_yml
      then add_to_lock src before hash (record p { yml = yml })
      else rolled_back src before yml_not_written p

  abbrev pub add_provenance :
      Source → Project → String → List ProvenanceEntry → MergeResult → Project → Project × AddEnding
  add_provenance src before hash entries r p =
      if not (is_empty r.conflicts)
      then rolled_back src before (conflicts r.conflicts) p
      else if env.can_write_provenance
      then add_to_yml src before hash
          (put_version src.pack_name (recorded_version (src.source_type == "local") src.version)
            p.yml)
          (record p { provenance = holds (entries ++ map (of_pack src.pack_name) r.merged) })
      else rolled_back src before provenance_not_written p

  abbrev pub add_merged :
      Source
      → Project
      → String
      → List ProvenanceEntry
      → Configs × Option MergeResult
      → Project
      → Project × AddEnding
  add_merged src before hash entries (configs, none) p =
      rolled_back src before not_merged (record p { configs = configs })
  add_merged src before hash entries (configs, some r) p =
      add_provenance src before hash entries r (record p { configs = configs })

  abbrev pub add_config :
      Source → Project → String → Option (List ProvenanceEntry) → Project → Project × AddEnding
  add_config src before hash none p = rolled_back src before bad_provenance p
  add_config src before hash (some entries) p =
      add_merged src before hash entries (merge_tool_config env (s.tool_config src.files) p.configs)
        p

  abbrev pub add_hashed : Source → Option String → Project → Project × AddEnding
  add_hashed src none p =
      (record p { packs = erase_tree src.pack_name p.packs }, refused not_hashed)
  add_hashed src (some hash) p = add_config src p hash (read_provenance p.provenance) p

  -- The copy into what is there of the pack; its error leaves what was copied.
  abbrev pub add_copied : Source → Copied → Project → Project × AddEnding
  add_copied src c p =
      let p' = record p { packs = put_tree src.pack_name c.files p.packs } in
      if c.succeeded
      then add_hashed src (compute_content_hash env.sha c.files) p'
      else (p', refused not_copied)

  abbrev pub add_sourced : Sourced → Project → Project × AddEnding
  add_sourced (unsourced e) p = (p, refused e)
  add_sourced (sourced src) p =
      if is_pack_installed_and_current p src.pack_name
      then (p, already_current src.pack_name src.warnings)
      else if run_validation_on_scratch_copy s src.files
      then add_copied src
          (copy_dir (env.write src.pack_name) src.files
            (files_or_none (installed_tree src.pack_name p.packs)))
          p
      else (p, refused not_valid)

  -- `(*AddCommand).Run`: the project it leaves, and how it ends.
  unfoldable pub add : String → String → Project → Project × AddEnding
  unfolding source_of is_pack_installed_and_current run_validation_on_scratch_copy copy_dir
      compute_content_hash merge_tool_config roll_back put installed_tree put_tree
  add ref override p = add_sourced (source_of s ref override) p
