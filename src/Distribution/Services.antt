-- ===== src/Distribution/Services.antt =====
-- pkg/pack/distribution: what the pack commands are assembled over (the interfaces of add.go,
-- update.go and upgrade.go), and the validation on a scratch copy (command.go).
use backstop_core.Prelude.{String, Bool, false, List, [], Option, none, some, if◌then◌else◌}
use backstop_core.Distribution.Tree.{Tree, Write, copy_dir}
use backstop_core.Distribution.Config.{ToolConfigEntry}
use backstop_core.Distribution.Tamper.{TamperRule}

-- `GitCloner`, `Validator`, `VersionResolver`, `Scanner` and `RemediationGenerator`, and the readers
-- of a pack's manifest; `none` is an error. `check` returns the directory as the check leaves it.
pub record Services : Type 0 where
  pub clone : String → String → Option Tree
  pub check : Tree → Option Tree
  pub test : Tree → Bool
  pub resolve : String → String → Option String
  pub is_major_bump : String → String → Bool
  pub scan : Tree → Option (List String)
  pub generate : List String → Option String
  pub manifest_fields : Tree → Option (String × String)
  pub tool_config : Tree → Option (List ToolConfigEntry)
  pub rules_of : Tree → Option (List TamperRule)
  -- the directory at a local reference, and its path relative to the project
  pub at_path : String → Option Tree
  pub relative : String → Option String
  pub scratch_write : String → Write

abbrev pub checked : (Tree → Bool) → Option Tree → Bool
checked test none = false
checked test (some files) = test files

-- `RunValidationOnScratchCopy`: the pack itself is not given to the validator.
unfoldable pub run_validation_on_scratch_copy : Services → Tree → Bool
unfolding copy_dir
run_validation_on_scratch_copy s pack =
    let scratch = copy_dir s.scratch_write pack [] in
    if scratch.succeeded then checked s.test (s.check scratch.files) else false
