-- ===== src/Gate/Substantiveness.antt =====
-- pkg/gate/substantiveness_join.go: what the findings of a substantiveness pack say of the mandated
-- tests.
pub mod Evidence
pub mod Severity
use Prim.Native.String.{String}
use backstop_core.Prelude.{
  ℕ, code, Bool, true, false, not, ◌&&◌, ◌||◌, List, [], ◌∷◌, Option, none, some, keep, any, lookup,
  member, map, eqb, ltb, ◌==◌, if◌then◌else◌,
}
use backstop_core.Text.Numbers.{concat, itoa}
use backstop_core.Text.Split.{split, has_prefix}
use backstop_core.FilePath.{clean, normalize_path}
use backstop_core.Gate.Violation.{Violation, new_violation, step_test_substantiveness}
use backstop_core.Gate.StatusDrift.{MandatedTest}

-- `Properties[key]`: the empty text for a key that is not there.
abbrev text_or_empty : Option String → String
text_or_empty none = ""
text_or_empty (some s) = s

unfoldable pub property : String → Violation → String
unfolding lookup
property key v = text_or_empty (lookup key v.properties)

-- `filepath.Base`: the last element that is not empty.
unfoldable pub last_part : String → List String → String
last_part found [] = found
last_part found (s ∷ ss) = last_part (if s == "" then found else s) ss

unfoldable pub base : String → String
unfolding last_part split
base path = if path == "" then "." else last_part "/" (split b'/' path)

-- `sameFile`
unfoldable pub same_file : String → String → Bool
unfolding base clean
same_file a b =
    if a == "" || b == ""
    then false
    else if clean a == clean b
    then true
    else base (clean a) == base (clean b)

-- `NoTargetViolation`; a referenced set is the list of its symbols.
unfoldable pub no_target_violation : String → String → List String → Bool → Option Violation
unfolding member concat
no_target_violation func target referenced same_package =
    if target == ""
    then none
    else if same_package
    then none
    else if member target referenced
    then none
    else some (
        new_violation step_test_substantiveness ""
          (concat ("test function " ∷ func ∷ " does not call package " ∷ target ∷ [])) "error")

-- `NoTargetViolationForTest`
unfoldable pub no_target_for_test : MandatedTest → List String → Bool → Option Violation
unfolding no_target_violation
no_target_for_test mt referenced same_package =
    if mt.is_absence
    then none
    else no_target_violation mt.func_name mt.target_pkg referenced same_package

abbrev pub is_raised : Option Violation → Bool
is_raised none = false
is_raised (some v) = true

-- `JoinEligibleForNoTarget`
unfoldable pub join_eligible : MandatedTest → Bool → Bool
unfolding no_target_for_test
join_eligible mt same_package = is_raised (no_target_for_test mt [] same_package)

-- `SubstantivenessEvidenceRefusal`
unfoldable pub evidence_refusal : ℕ → ℕ → ℕ → Option Violation
unfolding concat itoa
evidence_refusal eligible extraction hollow =
    if ltb eligible 1 || ltb 0 extraction || ltb 0 hollow
    then none
    else some (
        new_violation step_test_substantiveness ""
          (concat (
            "the substantiveness pack produced no findings of any kind while "
            ∷ itoa eligible
            ∷ " mandated tests were join-eligible — its engine did not run, its classification matched 0 test files, or those tests genuinely make no package-qualified calls while still satisfying the pack's assertion vocabulary; refusing instead of reporting "
            ∷ itoa eligible
            ∷ " unsubstantiated \"does not call package\" violations"
            ∷ []))
          "error")

-- `RouteSubstantivenessFindings`
abbrev pub has_role : String → Violation → Bool
has_role role v = property "substantiveness_role" v == role

unfoldable pub route_substantiveness_findings : List Violation → List Violation × List Violation
unfolding keep property
route_substantiveness_findings vs =
    (keep (has_role "hollow") vs, keep (has_role "referenced-symbol") vs)

-- The two guards of the loops over the findings: the finding is about the test.
unfoldable pub is_about : MandatedTest → Violation → Bool
unfolding same_file property
is_about mt v = same_file v.file mt.file_path && property "func" v == mt.func_name

-- `ReferencedSetForTest`
unfoldable pub referenced_set : List Violation → MandatedTest → List String
unfolding is_about property
referenced_set [] mt = []
referenced_set (v ∷ vs) mt =
    let rest = referenced_set vs mt in
    let symbol = property "symbol" v in
    if is_about mt v && not (symbol == "") then symbol ∷ rest else rest

-- `IsTestHollow`
unfoldable pub is_test_hollow : List Violation → MandatedTest → Bool
unfolding any is_about
is_test_hollow hollow mt = any (is_about mt) hollow

-- `TargetPackageName`
unfoldable pub target_package_name : String → String
unfolding base
target_package_name subject = if subject == "" then "" else base subject

-- The message up to the first occurrence of a key.
unfoldable pub cut_at : String → String → String
unfolding has_prefix
cut_at key String.[] = String.[]
cut_at key (String.◌∷◌ c s) =
    let rest = cut_at key s in
    if has_prefix (String.◌∷◌ c s) key then String.[] else String.◌∷◌ c rest

-- `strings.TrimRight(message, " \t")`
unfoldable pub trim_blanks : String → String
trim_blanks String.[] = String.[]
trim_blanks (String.◌∷◌ c s) =
    let rest = trim_blanks s in
    if rest == "" && (eqb (code c) 32 || eqb (code c) 9) then String.[] else String.◌∷◌ c rest

-- `stripFuncToken`
unfoldable pub strip_func_token : String → String
unfolding cut_at trim_blanks
strip_func_token message = trim_blanks (cut_at " symbol=" (cut_at " func=" message))

-- `HollowFindingsToViolations`
unfoldable pub hollow_violation : Violation → Violation
unfolding strip_func_token
hollow_violation v =
    record (new_violation step_test_substantiveness (normalize_path "" v.file)
      (strip_func_token v.message) v.severity) { line = v.line }

unfoldable pub hollow_findings_to_violations : List Violation → List Violation
unfolding hollow_violation
hollow_findings_to_violations vs = map hollow_violation vs
