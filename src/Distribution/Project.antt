-- ===== src/Distribution/Project.antt =====
-- pkg/pack/distribution: the files of a project that the pack commands read and write, and the
-- small readers of add.go, update.go and list.go. A write that fails leaves a file as it was.
use backstop_core.Prelude.{
  String, Bool, true, false, List, [], Option, none, some, ◌==◌, is_empty, not, if◌then◌else◌,
  lookup, put,
}
use backstop_core.Distribution.Tree.{Stored, missing, bad, holds, Tree, Write, compute_content_hash}
use backstop_core.Distribution.Lockfile.{LockEntry, Lockfile}
use backstop_core.Distribution.Verify.{Installed, installed_tree}
use backstop_core.Distribution.Install.{Manifest}

pub record ProvenanceEntry : Type 0 where
  pub config_file : String
  pub setting_key : String
  pub source_pack : String
  pub value_hash : String

-- A configuration file: the serialized values of its settings.
abbrev pub Settings : Type 0
Settings = List (String × String)

pub record Project : Type 0 where
  pub yml : Manifest
  pub lock : Stored Lockfile
  pub provenance : Stored (List ProvenanceEntry)
  pub packs : Installed
  pub configs : List (String × Stored Settings)

-- What the commands meet: digests of contents and values, the rendering of values and dates, and
-- which writes succeed. `stuck` is what a removal that fails leaves of a pack.
pub record Surroundings : Type 0 where
  pub sha : String → String
  pub value_hash : String → String
  pub rendered : String → String
  pub now : String
  pub stuck : String → Option Tree
  pub write : String → String → Write
  pub can_write_yml : Bool
  pub can_write_lock : Bool
  pub can_write_provenance : Bool
  pub can_write_config : String → Bool
  pub can_write_gitignore : Bool

-- `ReadProvenance`: a file that is not there has no entries.
abbrev pub read_provenance : Stored (List ProvenanceEntry) → Option (List ProvenanceEntry)
read_provenance missing = some []
read_provenance bad = none
read_provenance (holds entries) = some entries

abbrev pub is_present : {A : Type 0} → Option A → Bool
is_present none = false
is_present (some a) = true

-- `isPackInstalled`
unfoldable pub is_pack_installed : Manifest → String → Bool
unfolding lookup
is_pack_installed (holds packs) name = is_present (lookup name packs)
is_pack_installed _ name = false

abbrev has_files : Option Tree → Bool
has_files none = false
has_files (some files) = not (is_empty files)

abbrev has_entry : Stored Lockfile → String → Bool
has_entry (holds lock) name = is_present (lookup name lock)
has_entry _ name = false

-- `isPackInstalledAndCurrent`
unfoldable pub is_pack_installed_and_current : Project → String → Bool
unfolding installed_tree lookup
is_pack_installed_and_current p name =
    if has_files (installed_tree name p.packs) then has_entry p.lock name else false

-- `readPackVersion`: the version and whether the pack is local, or an error.
abbrev version_or_local : Option String → Option (String × Bool)
version_or_local none = none
version_or_local (some version) = some (if version == "local" then ("", true) else (version, false))

unfoldable pub read_pack_version : Manifest → String → Option (String × Bool)
unfolding lookup
read_pack_version (holds packs) name = version_or_local (lookup name packs)
read_pack_version _ name = none

-- `updatePackVersion`, and `updateBackstopYml` where the version of a local pack is `local`.
abbrev pub put_version : String → String → Manifest → Option Manifest
put_version name version (holds packs) = some (holds (put name version packs))
put_version name version _ = none

abbrev pub recorded_version : Bool → String → String
recorded_version local version = if local then "local" else version

-- `computeLockStatus`
abbrev pub matching_status : LockEntry → Option String → String
matching_status entry none = "missing"
matching_status entry (some hash) =
    if hash == entry.content_hash
    then (if entry.source_type == "local" then "current" else "locked")
    else "stale"

abbrev pub status_of_tree : (String → String) → LockEntry → Option Tree → String
status_of_tree sha entry none = "missing"
status_of_tree sha entry (some files) = matching_status entry (compute_content_hash sha files)

unfoldable pub compute_lock_status : (String → String) → Installed → String → LockEntry → String
unfolding compute_content_hash installed_tree
compute_lock_status sha packs name entry = status_of_tree sha entry (installed_tree name packs)
