-- ===== src/Tests/Projects.antt =====
-- Removes, updates and additions of packs in concrete projects. The digest is the text itself.
use backstop_core.Prelude.{
  String, Bool, true, false, List, [], ◌∷◌, none, some, ◌≡◌, refl, ◌==◌, if◌then◌else◌,
}
use backstop_core.Distribution.Tree.{Stored, missing, bad, holds, Tree, written}
use backstop_core.Distribution.Lockfile.{LockEntry}
use backstop_core.Distribution.Project.{Project, ProvenanceEntry, Settings, Surroundings}
use backstop_core.Distribution.Config.{ToolConfigEntry}
use backstop_core.Distribution.Services.{Services}
use backstop_core.Distribution.Remove.{removed, remove}
use backstop_core.Distribution.Remove.Frame.{Ended, remove-Ended}
use backstop_core.Distribution.Update.{UpdateResult, updated, update}
use backstop_core.Distribution.Update.Recorded.{Ends, update-Ends}
use backstop_core.Distribution.Add.{AddEnding, added, add}
use backstop_core.Distribution.Upgrade.{UpgradeEnding, upgraded, upgrade}
use backstop_core.Distribution.Relock.{relocked, relock}
use backstop_core.Tests.Packs.{entry, lock, declared, installed}

abbrev same : String → String
same text = text

abbrev around : Surroundings
around = record {
  sha = same;
  value_hash = same;
  rendered = same;
  now = "today";
  stuck = λ name. none;
  write = λ name path. written;
  can_write_yml = true;
  can_write_lock = true;
  can_write_provenance = true;
  can_write_config = λ file. true;
  can_write_gitignore = true;
}

abbrev strict : ProvenanceEntry
strict = record {
  config_file = "lint.yml";
  setting_key = "strict";
  source_pack = "org/p";
  value_hash = "true";
}

abbrev lint : List (String × Stored Settings)
lint = ("lint.yml", holds (("strict", "true") ∷ [])) ∷ []

abbrev project : Project
project = record {
  yml = holds declared;
  lock = holds lock;
  provenance = holds (strict ∷ []);
  packs = installed;
  configs = lint;
}

-- The setting of the pack is reported as reverted, and is still in the file.
remove_run : remove around "org/p" project ≡ (
  record {
    yml = holds [];
    lock = holds [];
    provenance = holds [];
    packs = some [];
    configs = lint;
  },
  removed (record { reverted_settings = "strict" ∷ []; warnings = [] }),
)
unfolding remove
remove_run = refl

remove-Ended_example :
    Ended "org/p" project (remove around "org/p" project).0 (remove around "org/p" project).1
remove-Ended_example = remove-Ended around "org/p" project

abbrev next : Tree
next = ("pack.yml", some "name: org/p, version: 1.3.0") ∷ []

abbrev asks : List ToolConfigEntry
asks =
    record { config_file = "lint.yml"; settings = ("depth", "3") ∷ [] }
    ∷ record { config_file = "test.yml"; settings = ("mode", "fast") ∷ [] }
    ∷ []

abbrev services : Services
services = record {
  clone = λ url tag. if tag == "v1.3.0" then some next else none;
  check = λ files. some files;
  test = λ files. true;
  resolve = λ coordinate current. some "1.3.0";
  is_major_bump = λ current resolved. false;
  scan = λ files. some [];
  generate = λ violations. none;
  manifest_fields = λ files. some ("org/p", "1.3.0");
  tool_config = λ files. some asks;
  rules_of = λ files. some [];
  at_path = λ path. none;
  relative = λ path. none;
  scratch_write = λ path. written;
}

abbrev new_entry : LockEntry
new_entry = record entry {
  version = "1.3.0";
  git_ref = some "v1.3.0";
  content_hash = "pack.yml:name: org/p, version: 1.3.0";
  install_date = "today";
}

abbrev updated_project : Project
updated_project = record project {
  yml = holds (("org/p", "1.3.0") ∷ []);
  lock = holds (("org/p", new_entry) ∷ []);
  packs = some (("org/p", next) ∷ []);
}

abbrev update_result : UpdateResult
update_result = record {
  old_version = "1.2.0";
  new_version = "1.3.0";
  content_hash = "pack.yml:name: org/p, version: 1.3.0";
  warnings = [];
}

update_run : update around services false "org/p" project ≡ (updated_project, updated update_result)
unfolding update
update_run = refl

update-Ends_example :
    Ends around services false "org/p" project (update around services false "org/p" project)
update-Ends_example = update-Ends around services false "org/p" project

-- A project with no packs whose `test.yml` disagrees with the pack.
abbrev fresh : Project
fresh = record {
  yml = holds [];
  lock = missing;
  provenance = missing;
  packs = none;
  configs = ("test.yml", holds (("mode", "slow") ∷ [])) ∷ [];
}

was_added : AddEnding → Bool
was_added (added r) = true
was_added _ = false

-- The conflict in `test.yml` refuses the pack, and what was written to `lint.yml` stays.
conflict_kept :
    (add around services "org/p@1.3.0" "" fresh).0.configs
    ≡ ("test.yml", holds (("mode", "slow") ∷ [])) ∷ ("lint.yml", holds (("depth", "3") ∷ [])) ∷ []
unfolding add
conflict_kept = refl

conflict_refused : was_added (add around services "org/p@1.3.0" "" fresh).1 ≡ false
unfolding add was_added
conflict_refused = refl

-- A configuration file that does not parse is replaced by the settings of the pack.
abbrev broken_config : Project
broken_config = record fresh { configs = ("lint.yml", bad) ∷ [] }

broken_replaced :
    (add around services "org/p@1.3.0" "" broken_config).0.configs
    ≡ ("lint.yml", holds (("depth", "3") ∷ [])) ∷ ("test.yml", holds (("mode", "fast") ∷ [])) ∷ []
unfolding add
broken_replaced = refl

broken_added : was_added (add around services "org/p@1.3.0" "" broken_config).1 ≡ true
unfolding add was_added
broken_added = refl

was_upgraded : UpgradeEnding → Bool
was_upgraded (upgraded r) = true
was_upgraded _ = false

upgrade_run : was_upgraded (upgrade around services "org/p@1.3.0" project).1 ≡ true
unfolding upgrade was_upgraded
upgrade_run = refl

relock_run :
    (relock around (some "org/p") (record project {
      lock = holds (("org/p", record entry { source_type = "local"; content_hash = "" }) ∷ []);
    })).1
    ≡ relocked "org/p" "pack.yml:name: org/p"
unfolding relock
relock_run = refl
