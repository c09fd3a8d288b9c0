-- ===== src/Distribution/Identity.antt =====
-- pkg/pack/distribution/identity.go: the identity gate on a cloned pack.
pub mod Agreement
use backstop_core.Prelude.{
  String, Bool, true, false, not, List, Option, none, some, ◌==◌, if◌then◌else◌,
}
use backstop_core.Distribution.Reference.{normalize_release_version, validate_pack_name, tag_of}

pub record RemoteIdentity : Type 0 where
  pub coordinate : String
  pub effective_version : String
  pub tag : String
  pub manifest_name : String
  pub install_name : String
  pub diverged : Bool

-- The refusals, each with what it names.
pub data IdentityRefusal : Type 0 where
  version_unresolved : String → IdentityRefusal
  manifest_unreadable manifest_nameless version_absent : IdentityRefusal
  version_loose : String → IdentityRefusal
  version_mismatch : String → String → IdentityRefusal
  name_unusable : String → IdentityRefusal

pub data Identified : Type 0 where
  identified : RemoteIdentity → Identified
  refused : IdentityRefusal → Identified

-- What `ReadManifestIdentity` gives of the `name` and `version` of a pack.yml.
pub data ManifestIdentity : Type 0 where
  unreadable nameless : ManifestIdentity
  named : String → String → ManifestIdentity

-- `ReadManifestIdentity`, of the two fields if the manifest parses.
unfoldable pub read_manifest_identity : Option (String × String) → ManifestIdentity
read_manifest_identity none = unreadable
read_manifest_identity (some (name, version)) = if name == "" then nameless else named name version

abbrev pub identity_of : String → String → String → RemoteIdentity
identity_of coordinate effective name = record {
  coordinate = coordinate;
  effective_version = effective;
  tag = tag_of effective;
  manifest_name = name;
  install_name = name;
  diverged = not (name == coordinate);
}

abbrev pub check_name : String → String → String → Identified
check_name coordinate effective name =
    if validate_pack_name name
    then identified (identity_of coordinate effective name)
    else refused (name_unusable name)

abbrev pub check_version : String → String → String → String → Option String → Identified
check_version coordinate effective name declared none = refused (version_loose declared)
check_version coordinate effective name declared (some version) =
    if version == effective
    then check_name coordinate effective name
    else refused (version_mismatch declared effective)

abbrev pub check_manifest : String → String → ManifestIdentity → Identified
check_manifest coordinate effective unreadable = refused manifest_unreadable
check_manifest coordinate effective nameless = refused manifest_nameless
check_manifest coordinate effective (named name version) =
    if version == ""
    then refused version_absent
    else check_version coordinate effective name version (normalize_release_version version)

abbrev pub check_effective : String → String → ManifestIdentity → Option String → Identified
check_effective coordinate given manifest none = refused (version_unresolved given)
check_effective coordinate given manifest (some effective) =
    check_manifest coordinate effective manifest

-- `ValidateRemoteIdentity`, of a coordinate, a version and what the cloned manifest says.
unfoldable pub validate_remote_identity : String → String → ManifestIdentity → Identified
unfolding normalize_release_version validate_pack_name
validate_remote_identity coordinate version manifest =
    check_effective coordinate version manifest (normalize_release_version version)
