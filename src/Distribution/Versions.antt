-- ===== src/Distribution/Versions.antt =====
-- pkg/pack/distribution/versionresolver.go: strict versions and the latest compatible one.
pub mod Order
pub mod RoundTrip
pub mod Resolve
use Prim.Native.String.{String}
use backstop_core.Prelude.{
  ℕ, ◌+◌, ◌-◌, ◌*◌, ◌^◌, code, Bool, true, false, not, ◌&&◌, List, [], ◌∷◌, Option, none, some, ltb,
  leb, eqb, ◌==◌, if◌then◌else◌,
}
use backstop_core.Text.Numbers.{concat, itoa}
use backstop_core.Text.Split.{split}
use backstop_core.Waiver.Token.{all_digits}

-- `versionComponents`
pub record Version : Type 0 where
  pub major : ℕ
  pub minor : ℕ
  pub patch : ℕ

-- `(versionComponents).String`
unfoldable pub show_version : Version → String
unfolding concat itoa
show_version v = concat (itoa v.major ∷ "." ∷ itoa v.minor ∷ "." ∷ itoa v.patch ∷ [])

-- `newerThan`
unfoldable pub newer_than : Version → Version → Bool
newer_than v w =
    if not (eqb v.major w.major)
    then ltb w.major v.major
    else if not (eqb v.minor w.minor)
    then ltb w.minor v.minor
    else ltb w.patch v.patch

-- The largest `int` of a 64-bit platform, above which `strconv.Atoi` fails.
abbrev int_max : ℕ
int_max = 2 ^ 63 - 1

unfoldable pub decimal : ℕ → String → ℕ
decimal acc String.[] = acc
decimal acc (String.◌∷◌ c s) = decimal (acc * 10 + (code c - b'0')) s

-- A component: digits, at least one, of a number that an `int` holds.
unfoldable pub component : String → Option ℕ
unfolding all_digits decimal
component s =
    let n = decimal 0 s in
    if not (s == "") && all_digits s then (if leb n int_max then some n else none) else none

-- `strings.TrimPrefix(value, "v")`
unfoldable pub trim_v : String → String
trim_v String.[] = String.[]
trim_v (String.◌∷◌ c s) = if eqb (code c) b'v' then s else String.◌∷◌ c s

abbrev version_of : Option ℕ → Option ℕ → Option ℕ → Option Version
version_of (some a) (some b) (some c) = some (record { major = a; minor = b; patch = c })
version_of _ _ _ = none

-- The pattern asks for three components.
unfoldable pub parse_parts : List String → Option Version
unfolding component
parse_parts (a ∷ b ∷ c ∷ []) = version_of (component a) (component b) (component c)
parse_parts _ = none

-- `parseVersionComponents`
unfoldable pub parse_version : String → Option Version
unfolding parse_parts trim_v split
parse_version s = parse_parts (split b'.' (trim_v s))

-- `latest` and `resolved` of the loop.
pub record Latest : Type 0 where
  pub version : Version
  pub resolved : String

-- The body of the loop over the tags, for a tag that is a version.
unfoldable pub consider : Version → Version → Latest → Latest
unfolding newer_than show_version
consider current candidate l =
    if not (eqb candidate.major current.major)
    then l
    else if not (newer_than candidate l.version)
    then l
    else record { version = candidate; resolved = show_version candidate }

abbrev pub consider_tag : Version → Option Version → Latest → Latest
consider_tag current none l = l
consider_tag current (some candidate) l = consider current candidate l

unfoldable pub scan_tags : Version → List String → Latest → Latest
unfolding consider parse_version
scan_tags current [] l = l
scan_tags current (tag ∷ tags) l =
    scan_tags current tags (consider_tag current (parse_version tag) l)

pub data Resolution : Type 0 where
  resolved_to : String → Resolution
  not_strict listing_failed : Resolution

abbrev pub resolution_of : Version → String → Option (List String) → Resolution
resolution_of current text none = listing_failed
resolution_of current text (some tags) =
    resolved_to (scan_tags current tags (record { version = current; resolved = text })).resolved

-- `resolveGitURL`
unfoldable pub resolve_git_url : String → String
unfolding concat
resolve_git_url name = concat ("https://github.com/" ∷ name ∷ ".git" ∷ [])

abbrev pub resolution_for :
    (String → Option (List String)) → String → String → Option Version → Resolution
resolution_for list_tags coordinate text none = not_strict
resolution_for list_tags coordinate text (some current) =
    resolution_of current text (list_tags (resolve_git_url coordinate))

-- `ResolveLatestCompatible`; `list_tags` stands for the cloner's listing, `none` for its error.
unfoldable pub resolve_latest : (String → Option (List String)) → String → String → Resolution
unfolding scan_tags parse_version resolve_git_url
resolve_latest list_tags coordinate text =
    resolution_for list_tags coordinate text (parse_version text)

-- `IsMajorBump`
abbrev major_differs : Option Version → Option Version → Bool
major_differs (some v) (some w) = not (eqb v.major w.major)
major_differs _ _ = true

unfoldable pub is_major_bump : String → String → Bool
unfolding parse_version
is_major_bump current resolved = major_differs (parse_version current) (parse_version resolved)
