-- ===== src/Distribution/Config.antt =====
-- pkg/pack/distribution/config_merge.go: the settings that a pack asks for are merged into the
-- configuration files of the project.
use backstop_core.Prelude.{
  String, Bool, List, [], ◌∷◌, ◌++◌, Option, none, some, ◌==◌, if◌then◌else◌, any, lookup, put,
}
use backstop_core.Distribution.Tree.{Stored, holds}
use backstop_core.Distribution.Project.{ProvenanceEntry, Settings, Surroundings}

pub record ConfigConflict : Type 0 where
  pub config_file : String
  pub setting_key : String
  pub pack_value : String
  pub current_value : String

pub record MergeResult : Type 0 where
  pub merged : List ProvenanceEntry
  pub conflicts : List ConfigConflict

-- `toolConfigEntry`
pub record ToolConfigEntry : Type 0 where
  pub config_file : String
  pub settings : Settings

-- What the loop over the settings of one file has: the file's settings, and the result so far.
pub record Merging : Type 0 where
  pub current : Settings
  pub result : MergeResult

abbrev pub Configs : Type 0
Configs = List (String × Stored Settings)

-- The error of `readConfigFile` is dropped: a file that does not parse counts as empty.
abbrev pub current_settings : Option (Stored Settings) → Settings
current_settings (some (holds settings)) = settings
current_settings _ = []

abbrev no_merge : MergeResult
no_merge = record { merged = []; conflicts = [] }

module _ (env : Surroundings) where
  abbrev merge_value : String → String → String → Option String → Merging → Merging
  merge_value file key value none m = record {
    current = put key value m.current;
    result = record m.result {
      merged =
          m.result.merged
          ++ record {
            config_file = file;
            setting_key = key;
            source_pack = "";
            value_hash = env.value_hash value;
          }
            ∷ [];
    };
  }
  merge_value file key value (some present) m =
      if env.rendered present == env.rendered value then m else record m {
        result = record m.result {
          conflicts =
              m.result.conflicts
              ++ record {
                config_file = file;
                setting_key = key;
                pack_value = env.rendered value;
                current_value = env.rendered present;
              }
                ∷ [];
        };
      }

  -- The loop over the settings of one file.
  unfoldable pub merge_settings : String → Settings → Merging → Merging
  unfolding lookup put
  merge_settings file [] m = m
  merge_settings file ((key, value) ∷ settings) m =
      merge_settings file settings (merge_value file key value (lookup key m.current) m)

  abbrev merged_for : String → MergeResult → Bool
  merged_for file r = any (λ (e : ProvenanceEntry). e.config_file == file) r.merged

  -- The file is written if something was merged into it; `none` is the error of the write.
  abbrev write_merged : String → Merging → Configs → Option Configs
  write_merged file m configs =
      if merged_for file m.result
      then (if env.can_write_config file then some (put file (holds m.current) configs) else none)
      else some configs

  -- The configuration files behind a merge, and its result; `none` is an error.
  abbrev Merged : Type 0
  Merged = Configs × Option MergeResult

  abbrev continue_merge : MergeResult → Configs → Option Configs → (Configs → Merged) → Merged
  continue_merge r before none rest = (before, none)
  continue_merge r before (some configs) rest = rest configs

  unfoldable pub merge_files : List ToolConfigEntry → MergeResult → Configs → Merged
  unfolding merge_settings any put lookup
  merge_files [] r configs = (configs, some r)
  merge_files (tc ∷ entries) r configs =
      let m =
        merge_settings tc.config_file tc.settings
          (record { current = current_settings (lookup tc.config_file configs); result = r }) in
      continue_merge m.result configs (write_merged tc.config_file m configs)
        (merge_files entries m.result)

  -- `MergeToolConfig`, of the entries that the pack's manifest has if it can be read.
  unfoldable pub merge_tool_config : Option (List ToolConfigEntry) → Configs → Merged
  unfolding merge_files
  merge_tool_config none configs = (configs, none)
  merge_tool_config (some entries) configs = merge_files entries no_merge configs
