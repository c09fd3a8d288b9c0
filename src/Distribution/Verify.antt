-- ===== src/Distribution/Verify.antt =====
-- pkg/pack/distribution/verify.go: the installed packs against the lock.
pub mod Exact
use backstop_core.Prelude.{
  String, Bool, true, false, List, [], ◌∷◌, ◌++◌, Option, none, some, ◌==◌, is_empty, if◌then◌else◌,
  lookup,
}
use backstop_core.Text.Numbers.{concat}
use backstop_core.Distribution.Tree.{Tree, compute_content_hash}
use backstop_core.Distribution.Lockfile.{LockEntry, Lockfile}

pub record LockFailure : Type 0 where
  pub pack : String
  pub kind : String
  pub message : String

pub record VerifyResult : Type 0 where
  pub pass : Bool
  pub failures : List LockFailure

-- The directories `org/pack` of the packs directory, by that name; `none` if there is no packs
-- directory.
abbrev pub Installed : Type 0
Installed = Option (List (String × Tree))

unfoldable pub installed_tree : String → Installed → Option Tree
unfolding lookup
installed_tree name none = none
installed_tree name (some packs) = lookup name packs

abbrev missing_lockfile : LockFailure
missing_lockfile = record {
  pack = "";
  kind = "missing_lockfile";
  message = "backstop.lock is absent but packs are declared in backstop.yml";
}

abbrev pub passing : VerifyResult
passing = record { pass = true; failures = [] }

abbrev pub add_failure : LockFailure → VerifyResult → VerifyResult
add_failure failure r = record r { pass = false; failures = r.failures ++ failure ∷ [] }

-- What the loop finds of one locked pack: it is in order, it fails, or its hash is an error.
pub data Check : Type 0 where
  intact : Check
  fails : LockFailure → Check
  unreadable : Check

module _ (sha : String → String) (packs_dir : String) where
  pub missing_pack : String → LockFailure
  unfolding concat
  missing_pack name = record {
    pack = name;
    kind = "missing_pack";
    message = concat (
        "locked pack " ∷ name ∷ " is not present in " ∷ packs_dir ∷ "; run pack install to restore"
        ∷ []);
  }

  pub hash_mismatch : String → String → String → LockFailure
  unfolding concat
  hash_mismatch name current locked = record {
    pack = name;
    kind = "hash_mismatch";
    message = concat (
        "pack " ∷ name ∷ " content hash mismatch: installed=" ∷ current ∷ " locked=" ∷ locked
        ∷ "; run pack install to restore" ∷ []);
  }

  pub extra_unlocked : String → LockFailure
  unfolding concat
  extra_unlocked name = record {
    pack = name;
    kind = "extra_unlocked";
    message =
        concat ("pack " ∷ name ∷ " exists in " ∷ packs_dir ∷ " but is not in backstop.lock" ∷ []);
  }

  abbrev pub check_hash : String → String → Option String → Check
  check_hash name locked none = unreadable
  check_hash name locked (some current) =
      if current == locked then intact else fails (hash_mismatch name current locked)

  abbrev pub check_installed : String → LockEntry → Option Tree → Check
  check_installed name entry none = fails (missing_pack name)
  check_installed name entry (some files) =
      check_hash name entry.content_hash (compute_content_hash sha files)

  unfoldable pub check_entry : Installed → String → LockEntry → Check
  unfolding installed_tree compute_content_hash hash_mismatch missing_pack
  check_entry packs name entry =
      if entry.source_type == "local"
      then intact
      else check_installed name entry (installed_tree name packs)

  abbrev pub after_check :
      Check → VerifyResult → (VerifyResult → Option VerifyResult) → Option VerifyResult
  after_check intact r rest = rest r
  after_check (fails failure) r rest = rest (add_failure failure r)
  after_check unreadable r rest = none

  -- The loop over the locked packs.
  unfoldable pub verify_entries : Installed → Lockfile → VerifyResult → Option VerifyResult
  unfolding check_entry
  verify_entries packs [] r = some r
  verify_entries packs ((name, entry) ∷ lock) r =
      after_check (check_entry packs name entry) r (verify_entries packs lock)

  abbrev pub extra_check : String → Option LockEntry → VerifyResult → VerifyResult
  extra_check name none r = add_failure (extra_unlocked name) r
  extra_check name (some entry) r = r

  unfoldable pub extra_packs : Lockfile → List (String × Tree) → VerifyResult → VerifyResult
  unfolding lookup extra_unlocked
  extra_packs lock [] r = r
  extra_packs lock ((name, files) ∷ packs) r =
      extra_packs lock packs (extra_check name (lookup name lock) r)

  -- `detectExtraUnlocked`
  unfoldable pub detect_extra_unlocked : Lockfile → Installed → VerifyResult → VerifyResult
  unfolding extra_packs
  detect_extra_unlocked lock none r = r
  detect_extra_unlocked lock (some packs) r = extra_packs lock packs r

  abbrev pub with_extra : Lockfile → Installed → Option VerifyResult → Option VerifyResult
  with_extra lock packs none = none
  with_extra lock packs (some r) = some (detect_extra_unlocked lock packs r)

  -- `VerifyLock`; `none` is the error of a pack whose files cannot be read.
  unfoldable pub verify_lock : Option Lockfile → Installed → List String → Option VerifyResult
  unfolding verify_entries detect_extra_unlocked
  verify_lock none packs declared =
      some (if is_empty declared then passing else add_failure missing_lockfile passing)
  verify_lock (some lock) packs declared = with_extra lock packs (verify_entries packs lock passing)
