-- ===== src/Distribution/Lockfile.antt =====
-- pkg/pack/distribution/lockfile.go: what the lock records of a pack.
use backstop_core.Prelude.{
  String, List, [], ◌∷◌, Option, none, some, not, ◌==◌, if◌then◌else◌, lookup,
}
use backstop_core.Text.Numbers.{concat}
use backstop_core.Distribution.Versions.{resolve_git_url}

pub record LockEntry : Type 0 where
  pub name : String
  pub version : String
  pub git_ref : Option String
  pub content_hash : String
  pub source_type : String
  pub install_date : String
  pub local_path : String
  pub source_coordinate : String

-- `Lockfile`, as its packs by name.
abbrev pub Lockfile : Type 0
Lockfile = List (String × LockEntry)

-- The zero value, which reading a missing key gives.
abbrev pub no_entry : LockEntry
no_entry = record {
  name = "";
  version = "";
  git_ref = none;
  content_hash = "";
  source_type = "";
  install_date = "";
  local_path = "";
  source_coordinate = "";
}

-- A map is read at a key: the entry, or the zero value.
abbrev pub entry_or_zero : Option LockEntry → LockEntry
entry_or_zero none = no_entry
entry_or_zero (some entry) = entry

-- `lockedEntryFor`; `none` is a lock that is absent or cannot be read.
unfoldable pub locked_entry_for : Option Lockfile → String → LockEntry
unfolding lookup
locked_entry_for none pack = no_entry
locked_entry_for (some lock) pack = entry_or_zero (lookup pack lock)

-- `recordedCoordinateFor`
unfoldable pub recorded_coordinate_for : Option Lockfile → String → String
unfolding lookup
recorded_coordinate_for none pack = ""
recorded_coordinate_for (some lock) pack = (entry_or_zero (lookup pack lock)).source_coordinate

-- `CoordinateForEntry`: the coordinate, and a warning if it is a guess.
unfoldable pub coordinate_for_entry : String → LockEntry → String × Option String
unfolding concat
coordinate_for_entry pack entry =
    if not (entry.source_coordinate == "") then (entry.source_coordinate, none) else (
      pack,
      some (
          concat (
            "pack " ∷ pack
            ∷ " has no source_coordinate recorded in backstop.lock; falling back to its pack name as the repository. Re-add or relock the pack to record where it came from."
            ∷ [])),
    )

-- `RemoteURLForEntry`
unfoldable pub remote_url_for_entry : String → LockEntry → String × Option String
unfolding coordinate_for_entry resolve_git_url
remote_url_for_entry pack entry =
    let (coordinate, warning) = coordinate_for_entry pack entry in
    (resolve_git_url coordinate, warning)
