-- ===== src/Gate/Coverage/Judge.antt =====
-- pkg/gate/step_coverage.go: what a file is reported for.
use backstop_core.Prelude.{
  ◌+◌, ◌-◌, ◌%◌, ◌^◌, ℕ, ◌*◌, String, Bool, not, List, [], ◌∷◌, ◌++◌, Option, none, some, ◌==◌, ltb,
  eqb, lookup, if◌then◌else◌,
}
use backstop_core.FilePath.{normalize_path}
use backstop_core.Text.{trim_space}
use backstop_core.Text.Numbers.{concat, itoa}
use backstop_core.Gate.Scope.{GateScope}
use backstop_core.Gate.Violation.{Violation, new_violation}
use backstop_core.Gate.Coverage.{
  CoverageRecord, Metrics, Index, resolve_coverage_records_for_path, split_coverage_dup_key,
  sorted_coverage_metrics, coverage_path_in_diff_scope,
}
use backstop_core.Gate.Coverage.Thresholds.{Selection, coverage_threshold_for_metric}

-- `a < b` on `int`, of 64 bits in two's complement written without sign.
unfoldable pub int_ltb : ℕ → ℕ → Bool
int_ltb a b = ltb ((a + 2 ^ 63) % 2 ^ 64) ((b + 2 ^ 63) % 2 ^ 64)

-- `coverageBelowThreshold`; the products wrap around.
unfoldable pub coverage_below_threshold : ℕ → ℕ → ℕ → Bool
unfolding int_ltb
coverage_below_threshold covered total threshold =
    int_ltb ((covered * 100) % 2 ^ 64) ((total * threshold) % 2 ^ 64)

-- `%d` of an `int`.
unfoldable pub show_int : ℕ → String
unfolding itoa concat
show_int n = if ltb n (2 ^ 63) then itoa n else concat ("-" ∷ itoa (2 ^ 64 - n) ∷ [])

-- `coverageMetricLabel`
abbrev coverage_metric_label : CoverageRecord → String
coverage_metric_label r = if trim_space r.metric == "" then "unlabeled" else r.metric

-- `coverageExclusionReason`
abbrev exclusion_reason : String → String → String
exclusion_reason why metric =
    if not (why == "")
    then concat (": " ∷ why ∷ [])
    else if not (metric == "")
    then concat (" (declared metric: " ∷ metric ∷ ")" ∷ [])
    else " (pack-declared exclusion)"

coverage_exclusion_reason : CoverageRecord → String
unfolding concat trim_space
coverage_exclusion_reason r = exclusion_reason (trim_space r.justification) (trim_space r.metric)

-- The project root of a scope; a nil scope has none.
abbrev pub root_of : Option GateScope → String
root_of none = ""
root_of (some s) = s.project_root

module _ (quote : String → String) (root : String) where
  abbrev pub at_path : String → String → String → String → Violation
  at_path rule path message severity =
      new_violation rule (normalize_path root path) message severity

  collision_message : String → String → String
  unfolding concat
  collision_message path metric = concat (
      "duplicate coverage measurement for file "
      ∷ path
      ∷ " under metric "
      ∷ quote metric
      ∷ " — a producer emitted two records for the same (path, metric); refusing to silently keep one"
      ∷ [])

  -- The loop over the duplicate keys.
  unfoldable pub collisions : List String → List Violation
  unfolding split_coverage_dup_key normalize_path collision_message
  collisions [] = []
  collisions (key ∷ keys) =
      let (path, metric) = split_coverage_dup_key key in
      at_path "coverage_metric_collision" path (collision_message path metric) "error"
      ∷ collisions keys

  pub unmeasured_message : String → String
  unfolding concat
  unmeasured_message path = concat (
      "no coverage measurement for in-scope changed measurable-source file " ∷ path
      ∷ " (any metric) and it is not pack-declared excluded — refusing to pass with nothing measured"
      ∷ [])

  abbrev pub unmeasured : String → Violation
  unmeasured path = at_path "coverage_unmeasured" path (unmeasured_message path) "error"

  pub missing_message : String → String → String
  unfolding concat
  missing_message path metric = concat (
      "in-scope changed file "
      ∷ path
      ∷ " has coverage records but is missing the explicitly-declared "
      ∷ quote metric
      ∷ " metric — refusing to pass with a declared metric silently unmeasured"
      ∷ [])

  abbrev pub if_missing : String → String → Option CoverageRecord → List Violation → List Violation
  if_missing path metric (some r) rest = rest
  if_missing path metric none rest =
      at_path "coverage_metric_missing" path (missing_message path metric) "error" ∷ rest

  -- The loop over the declared metrics.
  unfoldable pub missing_metrics : String → Metrics → List String → List Violation
  unfolding lookup normalize_path missing_message
  missing_metrics path metrics [] = []
  missing_metrics path metrics (metric ∷ declared) =
      if_missing path metric (lookup metric metrics) (missing_metrics path metrics declared)

  exclusion_message : String → CoverageRecord → String
  unfolding concat trim_space coverage_exclusion_reason
  exclusion_message path r = concat (
      "coverage requirement for changed file "
      ∷ path
      ∷ " (metric "
      ∷ coverage_metric_label r
      ∷ ") is suppressed by a pack-declared exclusion"
      ∷ coverage_exclusion_reason r
      ∷ [])

  below_message : String → CoverageRecord → ℕ → String
  unfolding concat itoa show_int trim_space
  below_message path r threshold = concat (
      "file "
      ∷ path
      ∷ " coverage "
      ∷ show_int r.covered
      ∷ "/"
      ∷ show_int r.total
      ∷ " ("
      ∷ coverage_metric_label r
      ∷ ") below threshold "
      ∷ itoa threshold
      ∷ "%"
      ∷ [])

  -- What one record of a changed or unchanged file is reported for, under its threshold.
  unfoldable pub judge_record : String → Bool → ℕ → CoverageRecord → List Violation
  unfolding coverage_below_threshold normalize_path exclusion_message below_message
  judge_record path changed threshold r =
      if r.excluded
      then (if changed
          then at_path "coverage_exclusion" path (exclusion_message path r) "warning" ∷ []
          else [])
      else if eqb r.total 0
      then []
      else if eqb threshold 0
      then []
      else if coverage_below_threshold r.covered r.total threshold
      then at_path "coverage_threshold" path (below_message path r threshold) "error" ∷ []
      else []

  abbrev pub judge_metric : String → Bool → ℕ → Option CoverageRecord → List Violation
  judge_metric path changed threshold none = []
  judge_metric path changed threshold (some r) = judge_record path changed threshold r

  module _ (thresholds : Selection) where
    -- The loop over the metrics of a file.
    unfoldable pub judge_metrics : String → Bool → Metrics → List String → List Violation
    unfolding judge_record lookup coverage_threshold_for_metric
    judge_metrics path changed metrics [] = []
    judge_metrics path changed metrics (metric ∷ rest) =
        judge_metric path changed (coverage_threshold_for_metric thresholds metric)
          (lookup metric metrics)
        ++ judge_metrics path changed metrics rest

    -- The body of the loop over the files.
    abbrev pub judge_file : String → Bool → List String → Option Metrics → List Violation
    judge_file path changed declared none = unmeasured path ∷ []
    judge_file path changed declared (some metrics) =
        (if changed then missing_metrics path metrics declared else [])
        ++ judge_metrics path changed metrics (sorted_coverage_metrics metrics)

    unfoldable pub judge_files :
        Option GateScope → List String → Index → List String → List Violation
    unfolding judge_metrics missing_metrics unmeasured_message normalize_path
        coverage_path_in_diff_scope resolve_coverage_records_for_path
    judge_files scope declared index [] = []
    judge_files scope declared index (path ∷ paths) =
        judge_file path (coverage_path_in_diff_scope path scope) declared
          (resolve_coverage_records_for_path index path)
        ++ judge_files scope declared index paths
