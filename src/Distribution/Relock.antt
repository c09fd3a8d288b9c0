-- ===== src/Distribution/Relock.antt =====
-- pkg/pack/distribution/relock.go: `pack relock`.
use backstop_core.Prelude.{String, Option, none, some, ◌==◌, if◌then◌else◌, lookup, put}
use backstop_core.Distribution.Tree.{holds, stored_value, Tree, compute_content_hash}
use backstop_core.Distribution.Lockfile.{LockEntry, Lockfile}
use backstop_core.Distribution.Verify.{installed_tree}
use backstop_core.Distribution.Project.{Project, Surroundings}

pub data RelockEnding : Type 0 where
  relocked : String → String → RelockEnding
  no_manifest unreadable_lock not_locked not_local not_installed not_hashed lock_not_written :
      RelockEnding

-- `readPackName`, of the `name` field if the manifest parses.
abbrev read_pack_name : Option String → Option String
read_pack_name none = none
read_pack_name (some name) = if name == "" then none else some name

module _ (env : Surroundings) where
  abbrev pub write_relocked :
      String → LockEntry → Lockfile → Option String → Project → Project × RelockEnding
  write_relocked name entry lock none p = (p, not_hashed)
  write_relocked name entry lock (some hash) p =
      let entry' = record entry { content_hash = hash; install_date = env.now } in
      if env.can_write_lock
      then (record p { lock = holds (put name entry' lock) }, relocked name hash)
      else (p, lock_not_written)

  abbrev pub hash_installed :
      String → LockEntry → Lockfile → Option Tree → Project → Project × RelockEnding
  hash_installed name entry lock none p = (p, not_installed)
  hash_installed name entry lock (some files) p =
      write_relocked name entry lock (compute_content_hash env.sha files) p

  abbrev pub relock_entry : String → Lockfile → Option LockEntry → Project → Project × RelockEnding
  relock_entry name lock none p = (p, not_locked)
  relock_entry name lock (some entry) p =
      if entry.source_type == "local"
      then hash_installed name entry lock (installed_tree name p.packs) p
      else (p, not_local)

  abbrev pub relock_name : Option String → Option Lockfile → Project → Project × RelockEnding
  relock_name none lock p = (p, no_manifest)
  relock_name (some name) none p = (p, unreadable_lock)
  relock_name (some name) (some lock) p = relock_entry name lock (lookup name lock) p

  -- `Relock`, of the name in the manifest at the given path.
  unfoldable pub relock : Option String → Project → Project × RelockEnding
  unfolding compute_content_hash installed_tree lookup put
  relock manifest_name p = relock_name (read_pack_name manifest_name) (stored_value p.lock) p
