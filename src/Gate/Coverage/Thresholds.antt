-- ===== src/Gate/Coverage/Thresholds.antt =====
-- pkg/gate/step_coverage.go: which threshold governs a metric. A threshold that is negative counts
-- as 0, which the code skips too.
use backstop_core.Prelude.{
  ℕ, String, code, Bool, true, false, not, ◌&&◌, ◌||◌, List, [], ◌∷◌, Option, none, some, ◌==◌, eqb,
  ltb, any, is_empty, keep, lookup, if◌then◌else◌,
}
use backstop_core.FilePath.{clean, normalize_path}
use backstop_core.Text.Numbers.{concat}
use backstop_core.Text.Split.{sort_strings, has_prefix}
use backstop_core.Gate.Scope.{GateScope, is_all, scope_contains, scope_empty}
use backstop_core.Gate.Coverage.{add_to_set}

-- `SpecVerification`
pub record SpecVerification : Type 0 where
  pub coverage_threshold : ℕ
  pub metric_thresholds : List (String × ℕ)
  pub file : String
  pub implementation_package : String

-- `coverageThresholdSelection`
pub data Selection : Type 0 where
  specs : List SpecVerification → Selection
  collapsed : ℕ → Selection

-- The text up to its last slash, the slash included.
unfoldable pub through_slash : String → String
through_slash String.[] = ""
through_slash (String.◌∷◌ c s) =
    let rest = through_slash s in
    if eqb (code c) b'/' || not (rest == "") then String.◌∷◌ c rest else ""

-- `filepath.Dir`, with `.` written as the empty text.
abbrev changed_dir : String → String
changed_dir file = let dir = clean (through_slash file) in if dir == "." then "" else dir

unfoldable pub trim_left_slashes : String → String
trim_left_slashes String.[] = ""
trim_left_slashes (String.◌∷◌ c s) =
    let rest = trim_left_slashes s in if eqb (code c) b'/' then rest else String.◌∷◌ c s

unfoldable pub trim_right_slashes : String → String
trim_right_slashes String.[] = ""
trim_right_slashes (String.◌∷◌ c s) =
    let rest = trim_right_slashes s in
    if eqb (code c) b'/' && rest == "" then "" else String.◌∷◌ c rest

unfoldable pub trim_dot_slash : String → String
trim_dot_slash (String.◌∷◌ c (String.◌∷◌ d s)) =
    if eqb (code c) b'.' && eqb (code d) b'/' then s else String.◌∷◌ c (String.◌∷◌ d s)
trim_dot_slash s = s

-- `packagePathMatches`
unfoldable pub package_path_matches : String → String → Bool
unfolding trim_left_slashes trim_right_slashes trim_dot_slash has_prefix concat
package_path_matches dir of_spec =
    let trimmed = trim_dot_slash (trim_right_slashes (trim_left_slashes of_spec)) in
    if dir == "" || trimmed == ""
    then dir == trimmed
    else dir == trimmed
      || has_prefix dir (concat (trimmed ∷ "/" ∷ []))
      || has_prefix trimmed (concat (dir ∷ "/" ∷ []))

-- `coverageSpecRelevantToFile`
unfoldable pub coverage_spec_relevant_to_file : SpecVerification → String → Bool → Bool
unfolding package_path_matches clean through_slash
coverage_spec_relevant_to_file spec file include_root =
    if not (spec.implementation_package == "")
    then package_path_matches (changed_dir file) spec.implementation_package
    else include_root

-- `coverageSpecRelevantToCodeScope`, in a scope that is not nil.
unfoldable pub coverage_spec_relevant_to_code_scope : GateScope → Bool → SpecVerification → Bool
unfolding coverage_spec_relevant_to_file normalize_path any scope_empty
coverage_spec_relevant_to_code_scope s include_root spec =
    if scope_empty (some s)
    then false
    else any (λ f. coverage_spec_relevant_to_file spec (normalize_path "" f) include_root) s.files

abbrev pub larger : ℕ → ℕ → ℕ
larger a b = if ltb a b then b else a

-- The loop that keeps the largest threshold.
unfoldable pub max_threshold : ℕ → List SpecVerification → ℕ
max_threshold acc [] = acc
max_threshold acc (spec ∷ rest) = max_threshold (larger acc spec.coverage_threshold) rest

abbrev or_floor : ℕ → ℕ → ℕ
or_floor floor threshold = if eqb threshold 0 then floor else threshold

-- The floor of a scope that no spec's file is in.
abbrev collapsed_threshold : List SpecVerification → GateScope → ℕ → ℕ
collapsed_threshold all s floor =
    let specific = keep (coverage_spec_relevant_to_code_scope s false) all in
    or_floor floor (
      max_threshold 0 (
        if is_empty specific
        then keep (coverage_spec_relevant_to_code_scope s true) all
        else specific))

abbrev has_file_in : GateScope → SpecVerification → Bool
has_file_in s spec = not (spec.file == "") && scope_contains (some s) spec.file

abbrev selected_or_collapsed :
    List SpecVerification → List SpecVerification → GateScope → ℕ → Selection
selected_or_collapsed [] all s floor = collapsed (collapsed_threshold all s floor)
selected_or_collapsed (spec ∷ selected) all s floor = specs (spec ∷ selected)

-- `coverageThresholdsForScope`
unfoldable pub coverage_thresholds_for_scope :
    List SpecVerification → Option GateScope → ℕ → Selection
unfolding keep max_threshold coverage_spec_relevant_to_code_scope scope_contains
coverage_thresholds_for_scope all none floor = specs all
coverage_thresholds_for_scope all (some s) floor =
    if is_all s.mode
    then specs all
    else selected_or_collapsed (keep (has_file_in s) all) all s floor

abbrev or_default : ℕ → Option ℕ → ℕ
or_default threshold none = threshold
or_default threshold (some override) = override

-- The loop of `coverageThresholdForMetric`.
unfoldable pub metric_threshold : String → ℕ → List SpecVerification → ℕ
unfolding lookup
metric_threshold metric acc [] = acc
metric_threshold metric acc (spec ∷ rest) =
    metric_threshold metric
      (larger acc (or_default spec.coverage_threshold (lookup metric spec.metric_thresholds))) rest

-- `coverageThresholdForMetric`
unfoldable pub coverage_threshold_for_metric : Selection → String → ℕ
unfolding metric_threshold
coverage_threshold_for_metric (collapsed threshold) metric = threshold
coverage_threshold_for_metric (specs selected) metric = metric_threshold metric 0 selected

unfoldable pub add_metrics : List (String × ℕ) → List String → List String
add_metrics [] set = set
add_metrics ((metric, threshold) ∷ rest) set = add_metrics rest (add_to_set metric set)

unfoldable pub metrics_of_specs : List SpecVerification → List String → List String
unfolding add_metrics
metrics_of_specs [] set = set
metrics_of_specs (spec ∷ rest) set = metrics_of_specs rest (add_metrics spec.metric_thresholds set)

-- `declaredCoverageMetrics`
unfoldable pub declared_coverage_metrics : Selection → List String
unfolding metrics_of_specs sort_strings
declared_coverage_metrics (collapsed threshold) = []
declared_coverage_metrics (specs selected) = sort_strings (metrics_of_specs selected [])
