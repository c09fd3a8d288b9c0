-- ===== src/Gate/Traceability/Pins.antt =====
-- requirement_traceability.go: what covers a requirement, and when the pin of a reference is stale.
use Prim.Native.String.{String}
use backstop_core.Prelude.{
  ℕ, ◌+◌, ◌-◌, ◌*◌, ◌%◌, ◌^◌, code, Bool, true, false, not, ◌&&◌, ◌||◌, List, [], ◌∷◌, Option, none,
  some, ◌==◌, eqb, ltb, if◌then◌else◌,
}
use backstop_core.Text.Split.{split}
use backstop_core.Gate.StatusDrift.{
  StatusClass, success_terminal, ArtifactKind, spec, BundleReqVersion, ArtifactStatusRecord,
}

-- `TraceRef`
pub record TraceRef : Type 0 where
  pub bundle_name : String
  pub req_id : String
  pub pin_version : String
  pub pinned : Bool
  pub citing_path : String

abbrev pub is_success : StatusClass → Bool
is_success success_terminal = true
is_success _ = false

abbrev pub is_spec : ArtifactKind → Bool
is_spec spec = true
is_spec _ = false

-- `SupportsCoverage`
abbrev pub supports_coverage : ArtifactKind → StatusClass → Bool
supports_coverage kind class = is_spec kind && is_success class

-- The loop of `parseNonNegativeInt`; the `int` of 64 bits wraps, and as its values are only compared
-- with each other, they are written without the sign.
unfoldable parse_digits : ℕ → String → Option ℕ
parse_digits n String.[] = some n
parse_digits n (String.◌∷◌ r s) =
    if ltb (code r) b'0' || ltb b'9' (code r)
    then none
    else parse_digits ((n * 10 + (code r - b'0')) % 2 ^ 64) s

-- `parseNonNegativeInt`
unfoldable parse_non_negative_int : String → Option ℕ
unfolding parse_digits
parse_non_negative_int s = if s == "" then none else parse_digits 0 s

abbrev major_minor : Option ℕ → Option ℕ → Option ℕ → Option (ℕ × ℕ)
major_minor (some major) (some minor) (some patch) = some (major, minor)
major_minor _ _ _ = none

abbrev semver_parts : List String → Option (ℕ × ℕ)
semver_parts (major ∷ minor ∷ patch ∷ []) =
    major_minor (parse_non_negative_int major) (parse_non_negative_int minor)
      (parse_non_negative_int patch)
semver_parts _ = none

-- `semverMajorMinor`
unfoldable semver_major_minor : String → Option (ℕ × ℕ)
unfolding split parse_non_negative_int
semver_major_minor version = semver_parts (split b'.' version)

abbrev bump_between : Option (ℕ × ℕ) → Option (ℕ × ℕ) → String × Bool
bump_between (some (pmj, pmn)) (some (cmj, cmn)) =
    if not (eqb pmj cmj)
    then ("major", true)
    else if not (eqb pmn cmn)
    then ("minor", true)
    else ("patch", false)
bump_between _ _ = ("unknown", false)

-- `StalePinVerdict`: the bump, and whether the pin is stale.
unfoldable pub stale_pin_verdict : String → String → String × Bool
unfolding semver_major_minor
stale_pin_verdict pin current =
    if pin == current
    then ("none", false)
    else bump_between (semver_major_minor pin) (semver_major_minor current)

unfoldable pub req_version_in : String → List BundleReqVersion → String
req_version_in req_id [] = ""
req_version_in req_id (req ∷ reqs) =
    if req.req_id == req_id then req.current_version else req_version_in req_id reqs

-- `bundleReqVersion`
abbrev pub bundle_req_version : ArtifactStatusRecord → String → String
bundle_req_version bundle req_id = req_version_in req_id bundle.bundle_reqs
