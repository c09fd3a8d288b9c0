-- ===== src/Tests/Substance.antt =====
-- The substantiveness join at concrete findings.
use backstop_core.Prelude.{true, false, not, ◌&&◌, [], ◌∷◌, any, ◌==◌, ◌≡◌, refl, length}
use backstop_core.Gate.Violation.{Violation, new_violation}
use backstop_core.Gate.Policy.{step_verdict}
use backstop_core.Gate.StatusDrift.{MandatedTest}
use backstop_core.Gate.Substantiveness.{
  referenced_set, no_target_for_test, is_raised, join_eligible, evidence_refusal, strip_func_token,
  property, route_substantiveness_findings, hollow_findings_to_violations, is_test_hollow,
}
use backstop_core.Gate.Substantiveness.Evidence.{
  evidences, has_target, eligible_tests, no_target_for_test-raised, evidence_refusal-unfed,
}
use backstop_core.Gate.Substantiveness.Severity.{step_verdict-hollow_findings_to_violations}

abbrev mandated : MandatedTest
mandated = record {
  func_name = "TestWidget";
  file_path = "pkg/gadget/widget_test.go";
  spec_file = "specs/SPEC-001.md";
  target_pkg = "widget";
  spec_id = "SPEC-001";
  claim_id = "CLM-001";
  status = "implemented";
  is_absence = false;
}

abbrev reference : Violation
reference = record (new_violation "go/refs" "./pkg/gadget/widget_test.go" "calls" "error") {
  properties =
      ("substantiveness_role", "referenced-symbol")
      ∷ ("func", "TestWidget")
      ∷ ("symbol", "widget")
      ∷ [];
}

abbrev hollow_finding : Violation
hollow_finding =
    record (new_violation "go/hollow" "pkg/gadget/widget_test.go"
      "test TestWidget has no assertions (hollow) func=TestWidget" "warning") {
        line = 12;
        properties = ("substantiveness_role", "hollow") ∷ ("func", "TestWidget") ∷ [];
      }

joined_run : referenced_set (reference ∷ []) mandated ≡ "widget" ∷ []
unfolding referenced_set
joined_run = refl

hollow_run : is_test_hollow (hollow_finding ∷ []) mandated ≡ true
unfolding is_test_hollow
hollow_run = refl

strip_run :
    strip_func_token "test TestWidget has no assertions (hollow) func=TestWidget"
    ≡ "test TestWidget has no assertions (hollow)"
unfolding strip_func_token
strip_run = refl

no_target_for_test-raised_example :
    (is_raised (no_target_for_test mandated (referenced_set (reference ∷ []) mandated) false)
      ≡ (join_eligible mandated false && not (any (evidences mandated) (reference ∷ []))))
    × (join_eligible mandated false ≡ true)
no_target_for_test-raised_example = no_target_for_test-raised mandated (reference ∷ []) false

evidence_refusal-unfed_example :
    let (hollow, extraction) = route_substantiveness_findings (hollow_finding ∷ []) in
    is_raised (
      evidence_refusal
        (length (eligible_tests ((mandated, false) ∷ [])))
        (length extraction)
        (length hollow))
    ≡ (any has_target ((mandated, false) ∷ [])
        && not (any (λ v. property "substantiveness_role" v == "hollow") (hollow_finding ∷ []))
        && not (
            any
              (λ v. property "substantiveness_role" v == "referenced-symbol")
              (hollow_finding ∷ [])))
evidence_refusal-unfed_example =
    evidence_refusal-unfed (hollow_finding ∷ []) ((mandated, false) ∷ [])

step_verdict-hollow_findings_to_violations_example :
    step_verdict (hollow_findings_to_violations (hollow_finding ∷ []))
    ≡ step_verdict (hollow_finding ∷ [])
step_verdict-hollow_findings_to_violations_example =
    step_verdict-hollow_findings_to_violations (hollow_finding ∷ [])
