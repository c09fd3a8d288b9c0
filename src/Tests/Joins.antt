-- ===== src/Tests/Joins.antt =====
-- Traceability, drift, mandated tests and contracts at concrete inputs.
use backstop_core.Prelude.{
  String, Bool, true, false, ◌&&◌, ◌||◌, List, [], ◌∷◌, none, some, any, ◌==◌, ◌≡◌, ◌↔◌, refl, inl,
  inr, In, if◌then◌else◌,
}
use backstop_core.FilePath.{normalize_path}
use backstop_core.Waiver.DeclaredPolicy.{new_declared_policy, waivable}
use backstop_core.Gate.Violation.{Violation, new_violation, Status, is_fail}
use backstop_core.Gate.Policy.{blocks_verdict}
use backstop_core.Gate.Polarity.{
  ToolchainPass, CapabilityState, polarity_step, classify_dimension, has_unknown_gate_type,
  declared_dimension, is_known_dimension,
}
use backstop_core.Gate.Polarity.Blocking.{polarity_step-blocks, polarity_step-unknown}
use backstop_core.Gate.StatusDrift.{
  MandatedTest, ArtifactStatusRecord, spec, success_terminal, classify_status_drift,
  split_drift_result,
}
use backstop_core.Gate.StatusDrift.Promises.{breaks, classify_status_drift-fails}
use backstop_core.Gate.TestVerdict.{
  mandated_failure, messages_naming, verdict_names_test, test_in_scope, mandated_test_failures,
  project_root_of,
}
use backstop_core.Gate.TestVerdict.Names.{Names, verdict_names_test-Names}
use backstop_core.Gate.TestVerdict.Join.{mandated_test_failures-In, mandated_test_failures_sound}
use backstop_core.Gate.Contract.{ContractEngineResult, contract_signature_step}
use backstop_core.Gate.Contract.Verdict.{is_broken, status-contract_signature_step}
use backstop_core.Tests.Samples.{quote}

abbrev waived_coverage : ToolchainPass
waived_coverage = record { gate_type = "coverage"; waived = true }

abbrev misspelt : ToolchainPass
misspelt = record { gate_type = "contract"; waived = true }

abbrev missing : CapabilityState
missing = record {
  present = false;
  working = false;
  pack_or_command = "";
  detail = "";
  stack = "go";
}

-- A waiver does not help a declared dimension whose capability is missing.
waived_run :
    (polarity_step quote "coverage_threshold" "coverage"
      (classify_dimension (some (waived_coverage ∷ [])) "coverage" missing)
      (some (waived_coverage ∷ []))
      missing).config_err
    ≡ true
unfolding polarity_step classify_dimension
waived_run = refl

polarity_step-blocks_example :
    let r =
      polarity_step quote "coverage_threshold" "coverage"
        (classify_dimension (some (waived_coverage ∷ [])) "coverage" missing)
        (some (waived_coverage ∷ []))
        missing in
    (r.config_err ≡ (
      has_unknown_gate_type (some (waived_coverage ∷ []))
      || (declared_dimension (some (waived_coverage ∷ [])) "coverage" && true)))
    × (is_fail r.status ≡ r.config_err)
polarity_step-blocks_example =
    polarity_step-blocks quote "coverage_threshold" "coverage" (some (waived_coverage ∷ [])) missing

unknown_contract : is_known_dimension "contract" ≡ false
unfolding is_known_dimension
unknown_contract = refl

polarity_step-unknown_example :
    let r =
      polarity_step quote "coverage_threshold" "coverage"
        (classify_dimension (some (waived_coverage ∷ misspelt ∷ [])) "coverage" missing)
        (some (waived_coverage ∷ misspelt ∷ []))
        missing in
    (r.status ≡ Status.fail) × (r.config_err ≡ true)
polarity_step-unknown_example =
    polarity_step-unknown quote "coverage_threshold" "coverage" (waived_coverage ∷ misspelt ∷ [])
      missing misspelt (inr (inl refl)) refl unknown_contract

abbrev mandated : MandatedTest
mandated = record {
  func_name = "TestWidget";
  file_path = "pkg/widget/widget_test.go";
  spec_file = "specs/SPEC-001.md";
  target_pkg = "widget";
  spec_id = "SPEC-001";
  claim_id = "CLM-001";
  status = "implemented";
  is_absence = false;
}

abbrev delivered : ArtifactStatusRecord
delivered = record {
  id = "SPEC-001";
  kind = spec;
  status = "implemented";
  class = success_terminal;
  path = "specs/SPEC-001.md";
  mandated_tests = mandated ∷ [];
  spec_id = "";
  bundle_name = "";
  bundle_reqs = [];
}

abbrev nothing_present : String → Bool
nothing_present name = false

drift_run : (classify_status_drift nothing_present (delivered ∷ [])).status ≡ Status.fail
unfolding classify_status_drift
drift_run = refl

classify_status_drift-fails_example :
    let combined = classify_status_drift nothing_present (delivered ∷ []) in
    (is_fail combined.status ≡ any (breaks nothing_present) (delivered ∷ []))
    × (is_fail (split_drift_result combined).0.status
        ≡ any (breaks nothing_present) (delivered ∷ []))
    × (is_fail (split_drift_result combined).1.status ≡ false)
classify_status_drift-fails_example = classify_status_drift-fails nothing_present (delivered ∷ [])

abbrev failure : Violation
failure = record (new_violation "go/test" "widget_test.go" "--- FAIL: TestWidget: got 3" "error") {
  gate_type = "test";
}

named : verdict_names_test "--- FAIL: TestWidget: got 3" "TestWidget" ≡ true
unfolding verdict_names_test
named = refl

-- A longer name is not the test's.
not_named : verdict_names_test "--- FAIL: TestWidgetBar" "TestWidget" ≡ false
unfolding verdict_names_test
not_named = refl

verdict_names_test-Names_example :
    (verdict_names_test "--- FAIL: TestWidget: got 3" "TestWidget" ≡ true)
    ↔ (("TestWidget" == "") ≡ false) × Names true "--- FAIL: TestWidget: got 3" "TestWidget"
verdict_names_test-Names_example =
    verdict_names_test-Names "--- FAIL: TestWidget: got 3" "TestWidget"

unscoped : test_in_scope none mandated ≡ true
unfolding test_in_scope
unscoped = refl

mandated_test_failures-In_example :
    (v : Violation) × In v (mandated_test_failures (mandated ∷ []) (failure ∷ []) none)
    × (v ≡ mandated_failure none mandated (messages_naming (failure ∷ []) "TestWidget"))
    × (v.file ≡ normalize_path (project_root_of none) "pkg/widget/widget_test.go")
    × (blocks_verdict v ≡ true)
    × ((rules : List String)
        → waivable (new_declared_policy rules ("critical" ∷ [])) v.rule v.severity ≡ false)
mandated_test_failures-In_example =
    mandated_test_failures-In (mandated ∷ []) (failure ∷ []) none mandated failure (inl refl)
      (inl refl) refl unscoped named

failure_reported :
    (v : Violation) × In v (mandated_test_failures (mandated ∷ []) (failure ∷ []) none)
unfolding mandated_test_failures
failure_reported = (_, inl refl)

mandated_test_failures_sound_example :
    (mt : MandatedTest) × In mt (mandated ∷ [])
    × (mt.status ≡ "implemented")
    × (test_in_scope none mt ≡ true)
    × ((f : Violation) × In f (failure ∷ []) × (verdict_names_test f.message mt.func_name ≡ true))
    × (failure_reported.0 ≡ mandated_failure none mt (messages_naming (failure ∷ []) mt.func_name))
    × (failure_reported.0.file
        ≡ normalize_path
            (project_root_of none)
            (if mt.file_path == "" then mt.spec_file else mt.file_path))
mandated_test_failures_sound_example =
    mandated_test_failures_sound (mandated ∷ []) (failure ∷ []) none failure_reported.0
      failure_reported.1

abbrev unscanned_result : ContractEngineResult
unscanned_result = record {
  entry = record { file = "pkg/old.go"; name = "Old"; signature = ""; scope = ""; absent = true };
  matched = false;
  scanned = false;
  locations = [];
}

status-contract_signature_step_example :
    (contract_signature_step quote (unscanned_result ∷ []) none).status
    ≡ (if any (is_broken quote none) (unscanned_result ∷ []) then Status.fail else Status.pass)
status-contract_signature_step_example =
    status-contract_signature_step quote (unscanned_result ∷ []) none
