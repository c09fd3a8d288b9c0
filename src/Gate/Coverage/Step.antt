-- ===== src/Gate/Coverage/Step.antt =====
-- pkg/gate/step_coverage.go: the coverage step.
use backstop_core.Prelude.{
  ℕ, String, Bool, ◌&&◌, List, [], ◌∷◌, ◌++◌, Option, none, some, any, is_empty, if◌then◌else◌,
}
use backstop_core.Gate.Scope.{GateScope}
use backstop_core.Gate.StatusDrift.{is_error}
use backstop_core.Gate.Violation.{
  Violation, new_violation, Status, StepResult, new_step_result, step_coverage_threshold,
}
use backstop_core.Gate.Coverage.{
  CoverageRecord, SourceClassifier, index_coverage_by_path_metric, scope_has_changed_files,
  coverage_paths_in_scope,
}
use backstop_core.Gate.Coverage.Judge.{root_of, collisions, judge_files}
use backstop_core.Gate.Coverage.Thresholds.{
  SpecVerification, coverage_thresholds_for_scope, declared_coverage_metrics,
}

nothing_to_measure : String
nothing_to_measure =
    "no in-scope files to measure for coverage — this dimension scored nothing for this diff and is not a test-pass verdict; test outcomes are reported by the test_verification dimension"

-- `coverageClassificationCapabilityAbsent`
abbrev pub coverage_classification_capability_absent : StepResult
coverage_classification_capability_absent =
    new_step_result step_coverage_threshold Status.warning
      (new_violation "coverage_capability_absent" ""
          "coverage classification capability absent: no pack-declared coverage globs are in effect, so the gate cannot determine which in-scope changed files are measurable source — install/declare a toolchain pack carrying a classification.source list. This advisory is non-blocking (exit 0)."
          "warning"
        ∷ [])
      ""

abbrev pub status_of : List Violation → Status
status_of violations = if any is_error violations then Status.fail else Status.pass

module _ (quote : String → String) where
  -- The findings: duplicate keys first, then file by file.
  unfoldable pub coverage_violations :
      List CoverageRecord
      → List SpecVerification
      → Option GateScope
      → ℕ
      → List String
      → List Violation
  unfolding collisions judge_files index_coverage_by_path_metric coverage_thresholds_for_scope
      declared_coverage_metrics
  coverage_violations records specs scope floor paths =
      let thresholds = coverage_thresholds_for_scope specs scope floor in
      let indexed = index_coverage_by_path_metric records in
      collisions quote (root_of scope) indexed.dup_keys
      ++ judge_files quote (root_of scope) thresholds scope (declared_coverage_metrics thresholds)
          indexed.by_path_metric paths

-- A finding reads the root of the scope: with a nil scope that is a panic, `none`.
abbrev pub reported : Option GateScope → List Violation → Option StepResult
reported none (v ∷ violations) = none
reported scope violations =
    some (new_step_result step_coverage_threshold (status_of violations) violations "")

module _ (quote : String → String) (matches : String → String → Bool)
    (on_disk : String → Bool) where
  -- `StepCoverageThresholdScopedFunc`, `floor` as its option sets it.
  unfoldable pub coverage_threshold_step :
      List CoverageRecord
      → List SpecVerification
      → Option GateScope
      → SourceClassifier
      → ℕ
      → Option StepResult
  unfolding coverage_violations coverage_paths_in_scope any nothing_to_measure
  coverage_threshold_step records specs scope classifier floor =
      let paths = coverage_paths_in_scope matches on_disk records scope classifier in
      if is_empty classifier.source && scope_has_changed_files scope
      then some coverage_classification_capability_absent
      else if is_empty paths
      then some (new_step_result step_coverage_threshold Status.pass [] nothing_to_measure)
      else reported scope (coverage_violations quote records specs scope floor paths)
