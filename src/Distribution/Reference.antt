-- ===== src/Distribution/Reference.antt =====
-- pkg/pack/distribution: pack references, the versions in them and the repositories that they name
-- (add.go, identity.go), and the name rule of pkg/pack/manifest.go.
use backstop_core.Prelude.{
  String, Char, code, Bool, true, false, not, ◌&&◌, ◌||◌, List, [], ◌∷◌, Option, none, some, leb,
  eqb, ◌==◌, if◌then◌else◌,
}
use backstop_core.Text.Numbers.{concat}
use backstop_core.Text.Split.{split, has_prefix}
use backstop_core.Distribution.Versions.{parse_version, trim_v}

-- `parsePackRef`: the parts in front of the first `@` and behind it.
abbrev push_name : Char → String × String → String × String
push_name c (name, version) = (String.◌∷◌ c name, version)

unfoldable pub parse_pack_ref : String → String × String
parse_pack_ref String.[] = ("", "")
parse_pack_ref (String.◌∷◌ c s) =
    let rest = parse_pack_ref s in if eqb (code c) b'@' then ("", s) else push_name c rest

-- `IsLocalPath`
unfoldable pub is_local_path : String → Bool
unfolding has_prefix
is_local_path ref = has_prefix ref "/" || has_prefix ref "./" || has_prefix ref "../"

abbrev pub version_tag_prefix : String
version_tag_prefix = "v"

abbrev pub tag_of : String → String
tag_of version = concat (version_tag_prefix ∷ version ∷ [])

-- `normalizeReleaseVersion`
unfoldable pub normalize_release_version : String → Option String
unfolding parse_version trim_v
normalize_release_version value = elim (parse_version value) [
  | none ↦ none
  | some components ↦ some (trim_v value)
]

-- `VersionUnresolvedError`, by its problem.
pub data Unresolved : Type 0 where
  no_version : Unresolved
  not_strict : String → Unresolved

pub data Resolved : Type 0 where
  resolved : String → String → Resolved
  unresolved : String → Unresolved → Resolved

abbrev resolved_with : String → String → String → Option String → Resolved
resolved_with reference coordinate supplied (some normalized) = resolved coordinate normalized
resolved_with reference coordinate supplied none = unresolved reference (not_strict supplied)

abbrev supplied_version : String → String → String
supplied_version of_reference override = if not (override == "") then override else of_reference

-- `ResolveEffectiveVersion`
unfoldable pub resolve_effective_version : String → String → Resolved
unfolding parse_pack_ref normalize_release_version
resolve_effective_version reference override =
    let (coordinate, of_reference) = parse_pack_ref reference in
    let supplied = supplied_version of_reference override in
    if supplied == ""
    then unresolved reference no_version
    else resolved_with reference coordinate supplied (normalize_release_version supplied)

-- `namePartPattern`: letters, digits and dashes, at least one.
abbrev is_name_char : Char → Bool
is_name_char c =
    (leb b'A' (code c) && leb (code c) b'Z')
    || (leb b'a' (code c) && leb (code c) b'z')
    || (leb b'0' (code c) && leb (code c) b'9')
    || eqb (code c) b'-'

unfoldable pub all_name_chars : String → Bool
all_name_chars String.[] = true
all_name_chars (String.◌∷◌ c s) = is_name_char c && all_name_chars s

-- `ValidatePackName`: whether the name is accepted.
unfoldable pub valid_name_parts : List String → Bool
unfolding all_name_chars
valid_name_parts (org ∷ pack ∷ []) =
    not (org == "" || pack == "") && all_name_chars org && all_name_chars pack
valid_name_parts _ = false

unfoldable pub validate_pack_name : String → Bool
unfolding valid_name_parts split
validate_pack_name name = valid_name_parts (split b'/' name)
