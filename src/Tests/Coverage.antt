-- ===== src/Tests/Coverage.antt =====
-- The coverage step on concrete records. A glob matches the paths that begin with it.
use backstop_core.Prelude.{
  String, Bool, true, false, any, [], ◌∷◌, Option, none, some, ◌≡◌, refl, inl, inr, lookup, sym, ap,
  ◌∙◌, subst, Bool-cases, if_true, if_false, ◌==◌,
}
use mathlib.Core.Option.{some-injective}
use backstop_core.FilePath.{normalize_path}
use backstop_core.Text.Split.{has_prefix}
use backstop_core.Gate.Scope.{GateScope, ScopeMode}
use backstop_core.Gate.Violation.{Status, StepResult, new_step_result}
use backstop_core.Gate.Coverage.{
  CoverageRecord, SourceClassifier, Metrics, must_measure, is_measurable_source,
  index_coverage_by_path_metric, resolve_coverage_records_for_path, coverage_path_in_diff_scope,
}
use backstop_core.Gate.Coverage.Thresholds.{
  SpecVerification, coverage_thresholds_for_scope, declared_coverage_metrics,
}
use backstop_core.Gate.Coverage.Step.{coverage_threshold_step}
use backstop_core.Gate.Coverage.Covered.{Covered, AllMeasured}
use backstop_core.Gate.Coverage.NoVacuousPass.{coverage_threshold_step-Covered}

abbrev plain : String → String
plain text = text

abbrev begins : String → String → Bool
begins glob path = has_prefix path glob

abbrev exists : String → Bool
exists path = true

abbrev half : CoverageRecord
half = record {
  path = "pkg/a.go";
  covered = 5;
  total = 10;
  measured = true;
  excluded = false;
  metric = "line";
  justification = "";
}

abbrev changed : GateScope
changed = record {
  mode = ScopeMode.diff;
  files = "pkg/a.go" ∷ "README.md" ∷ [];
  warnings = [];
  project_root = "/work";
  file_set = "pkg/a.go" ∷ "README.md" ∷ [];
}

abbrev classifier : SourceClassifier
classifier = record { source = "pkg/" ∷ []; test = [] }

abbrev passed : StepResult
passed = new_step_result "coverage_threshold" Status.pass [] ""

passed_run :
    coverage_threshold_step plain begins exists (half ∷ []) [] (some changed) classifier 50
    ≡ some passed
unfolding coverage_threshold_step
passed_run = refl

measured_run :
    must_measure begins exists classifier changed (normalize_path "/work" "pkg/a.go") ≡ true
unfolding is_measurable_source normalize_path has_prefix any backstop_core.Text.trim_space
measured_run = refl

single-AllMeasured :
    (metric : String) (x : CoverageRecord) → x.measured ≡ true → AllMeasured ((metric, x) ∷ [])
unfolding lookup
single-AllMeasured metric x h k r q = elim (Bool-cases (metric == k)) [
  | inl e ↦
      ap (λ (y : CoverageRecord). y.measured)
        (sym (some-injective x r (sym (if_true (some x) none e) ∙ q)))
      ∙ h
  | inr e ↦ absurd (cc (sym (if_false (some x) none e) ∙ q))
]

found_run :
    resolve_coverage_records_for_path
      (index_coverage_by_path_metric (half ∷ [])).by_path_metric
      (normalize_path "/work" "pkg/a.go")
    ≡ some (("line", half) ∷ [])
unfolding resolve_coverage_records_for_path index_coverage_by_path_metric normalize_path
    backstop_core.Text.trim_space
found_run = refl

found-AllMeasured :
    (metrics : Metrics)
    → resolve_coverage_records_for_path
        (index_coverage_by_path_metric (half ∷ [])).by_path_metric
        (normalize_path "/work" "pkg/a.go")
      ≡ some metrics
    → AllMeasured metrics
found-AllMeasured metrics q =
    subst AllMeasured (some-injective _ metrics (sym found_run ∙ q))
      (single-AllMeasured "line" half refl)

coverage_threshold_step-Covered_example :
    ((index_coverage_by_path_metric (half ∷ [])).dup_keys ≡ [])
    × ((metrics : Metrics) × (resolve_coverage_records_for_path
            (index_coverage_by_path_metric (half ∷ [])).by_path_metric
            (normalize_path "/work" "pkg/a.go")
          ≡ some metrics)
        × Covered
            (coverage_thresholds_for_scope [] (some changed) 50)
            (coverage_path_in_diff_scope (normalize_path "/work" "pkg/a.go") (some changed))
            (declared_coverage_metrics (coverage_thresholds_for_scope [] (some changed) 50))
            metrics)
coverage_threshold_step-Covered_example =
    coverage_threshold_step-Covered plain begins exists (half ∷ []) [] changed classifier 50 passed
      "pkg/a.go" refl passed_run refl (inl refl) measured_run found-AllMeasured

status_or_panic : Option StepResult → Option Status
status_or_panic none = none
status_or_panic (some r) = some r.status

below_run :
    status_or_panic
      (coverage_threshold_step plain begins exists (half ∷ []) [] (some changed) classifier 51)
    ≡ some Status.fail
unfolding coverage_threshold_step status_or_panic
below_run = refl

-- With a total this large the product wraps around to a negative number, and nothing covered passes.
wrapped_run :
    status_or_panic (
      coverage_threshold_step plain begins exists
        (record half { covered = 0; total = 200000000000000000 } ∷ [])
        []
        (some changed)
        classifier
        50)
    ≡ some Status.pass
unfolding coverage_threshold_step status_or_panic
wrapped_run = refl

-- A nil scope: a finding is a panic.
abbrev eighty : SpecVerification
eighty = record {
  coverage_threshold = 80;
  metric_thresholds = [];
  file = "";
  implementation_package = "";
}

nil_scope_run :
    coverage_threshold_step plain begins exists (half ∷ []) (eighty ∷ []) none classifier 90 ≡ none
unfolding coverage_threshold_step
nil_scope_run = refl

-- A record that says that nothing was measured.
unmeasured_run :
    coverage_threshold_step plain begins exists
      (record half { covered = 0; total = 0; measured = false } ∷ [])
      []
      (some changed)
      classifier
      90
    ≡ some passed
unfolding coverage_threshold_step
unmeasured_run = refl
