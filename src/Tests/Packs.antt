-- ===== src/Tests/Packs.antt =====
-- Installs, removes and updates of packs in concrete projects. The digest is the text itself.
use backstop_core.Prelude.{
  String, Bool, true, false, not, List, [], ◌∷◌, Option, none, some, ◌≡◌, ◌≢◌, ◌↔◌, refl, lookup,
  subst, All, arith,
}
use mathlib.Core.Option.{some-injective}
use backstop_core.Distribution.Versions.{Version, parse_version, show_version}
use backstop_core.Distribution.Versions.RoundTrip.{parse_version-show_version}
use backstop_core.Distribution.Reference.{resolve_effective_version, resolved}
use backstop_core.Distribution.Tree.{holds, Tree, written}
use backstop_core.Distribution.Tree.Copy.{Unique}
use backstop_core.Distribution.Lockfile.{LockEntry, Lockfile}
use backstop_core.Distribution.Verify.{Installed, VerifyResult, verify_lock, passing}
use backstop_core.Distribution.Verify.Exact.{InPlace, AllKnown, verify_lock-InPlace}
use backstop_core.Distribution.Install.{
  InstallOptions, InstallResult, finished, failed, panicked, hash_differs, install, undone, leaves,
}
use backstop_core.Distribution.Install.Copies.{IsProper}
use backstop_core.Distribution.Install.Rollback.{install-failed}
use backstop_core.Distribution.Install.Verified.{verify_lock-install}
use backstop_core.Distribution.Identity.{
  identified, ManifestIdentity, named, identity_of, validate_remote_identity,
}
use backstop_core.Distribution.Identity.Agreement.{Agrees, validate_remote_identity-Agrees}

abbrev digest : String → String
digest text = text

abbrev source : Tree
source = ("pack.yml", some "name: org/p") ∷ (".git/config", some "remote") ∷ []

abbrev pub entry : LockEntry
entry = record {
  name = "org/p";
  version = "1.2.0";
  git_ref = some "v1.2.0";
  content_hash = "pack.yml:name: org/p";
  source_type = "git";
  install_date = "";
  local_path = "";
  source_coordinate = "org/p";
}

abbrev pub lock : Lockfile
lock = ("org/p", entry) ∷ []

abbrev pub declared : List (String × String)
declared = ("org/p", "1.2.0") ∷ []

abbrev options : InstallOptions
options = record {
  cache_path = "";
  local_pack_dir = "";
  sha = digest;
  quote = digest;
  directory = λ path. none;
  in_project = λ path. none;
  cached = λ name. none;
  clone = λ url ref. some source;
  write = λ name path. written;
  snapshots = true;
  removal = undone;
  restoring = undone;
}

source-Unique : Unique source
unfolding lookup
source-Unique = (refl, (refl, tt))

options-IsProper : IsProper options
options-IsProper = record {
  directories = λ path t e. absurd (cc);
  projects = λ path t e. absurd (cc);
  caches = λ name t e. absurd (cc);
  clones = λ url ref t e. subst Unique (some-injective source t e) source-Unique;
}

abbrev pub installed : Installed
installed = some (("org/p", ("pack.yml", some "name: org/p") ∷ []) ∷ [])

abbrev only_installed : InstallResult
only_installed = record { installed_packs = "org/p" ∷ []; warnings = [] }

clean_run : install options (some lock) (holds declared) none ≡ (installed, finished only_installed)
unfolding install
clean_run = refl

declared-Unique : Unique declared
unfolding lookup
declared-Unique = (refl, tt)

lock-Unique : Unique lock
unfolding lookup
lock-Unique = (refl, tt)

lock-Declared : All (λ (e : String × LockEntry). lookup e.0 declared ≢ none) lock
unfolding lookup
lock-Declared = (λ e. absurd (cc), tt)

verify_lock-install_example :
    verify_lock digest ".backstop/packs" (some lock) installed ("org/p" ∷ []) ≡ some passing
verify_lock-install_example =
    verify_lock-install options options-IsProper lock ".backstop/packs" declared ("org/p" ∷ [])
      installed only_installed declared-Unique lock-Unique lock-Declared clean_run

-- A file that does not belong to the pack survives an install, and the verification still fails.
abbrev tampered : Installed
tampered = some (("org/p", ("pack.yml", some "name: org/p") ∷ ("extra.sh", some "x") ∷ []) ∷ [])

tampered_run :
    install options (some lock) (holds declared) tampered ≡ (tampered, finished only_installed)
unfolding install
tampered_run = refl

-- Whether a verification that ends well has failed.
abbrev has_failed : Option VerifyResult → Bool
has_failed none = false
has_failed (some r) = not r.pass

tampered_failed : has_failed (verify_lock digest ".backstop/packs" (some lock) tampered []) ≡ true
unfolding verify_lock
tampered_failed = refl

-- A git pack with a `null` reference.
abbrev no_ref : Lockfile
no_ref = ("org/p", record entry { git_ref = none }) ∷ []

no_ref_run : install options (some no_ref) (holds declared) none ≡ (none, panicked "org/p")
unfolding install
no_ref_run = refl

-- A lock with another digest.
abbrev other_lock : Lockfile
other_lock = ("org/p", record entry { content_hash = "pack.yml:other" }) ∷ []

failed_run :
    install options (some other_lock) (holds declared) installed
    ≡ (installed, failed (hash_differs "org/p"))
unfolding install
failed_run = refl

-- A rollback whose removal fails tells of the error of the pack all the same.
unremoved_run :
    install
      (record options { removal = leaves none; restoring = leaves none })
      (some other_lock)
      (holds declared)
      installed
    ≡ (none, failed (hash_differs "org/p"))
unfolding install
unremoved_run = refl

install-failed_example : installed ≡ installed
install-failed_example =
    install-failed options refl refl (some other_lock) (holds declared) installed installed
      (hash_differs "org/p") failed_run

intact_run : verify_lock digest ".backstop/packs" (some lock) installed [] ≡ some passing
unfolding verify_lock
intact_run = refl

verify_lock-InPlace_example :
    (true ≡ true) ↔ (All (InPlace digest installed) lock × AllKnown lock installed)
verify_lock-InPlace_example =
    verify_lock-InPlace digest ".backstop/packs" lock installed [] passing intact_run

abbrev release : Version
release = record { major = 10; minor = 0; patch = 3 }

parse_version-show_version_example : parse_version (show_version release) ≡ some release
parse_version-show_version_example =
    parse_version-show_version release (omega arith) (omega arith) (omega arith)

resolved_run : resolve_effective_version "org/p@v1.2.0" "" ≡ resolved "org/p" "1.2.0"
unfolding resolve_effective_version
resolved_run = refl

abbrev manifest : ManifestIdentity
manifest = named "org/p" "v1.2.0"

validate_remote_identity-Agrees_example :
    (validate_remote_identity "Org/p" "1.2.0" manifest
      ≡ identified (identity_of "Org/p" "1.2.0" "org/p"))
    ↔ Agrees "Org/p" "1.2.0" manifest (identity_of "Org/p" "1.2.0" "org/p")
validate_remote_identity-Agrees_example =
    validate_remote_identity-Agrees "Org/p" "1.2.0" manifest (identity_of "Org/p" "1.2.0" "org/p")

identified_run :
    validate_remote_identity "Org/p" "1.2.0" manifest
    ≡ identified (identity_of "Org/p" "1.2.0" "org/p")
unfolding validate_remote_identity
identified_run = refl
