-- ===== src/Gate/Violation.antt =====
-- pkg/gate/result.go: findings, step results and the canonical step names.
use backstop_core.Prelude.{ℕ, String, Bool, true, false, List, [], Option, none}

-- `Trace` of requirement_traceability.go
pub record Trace : Type 0 where
  pub bundle : String
  pub bundle_maturity : String
  pub req_id : String
  pub req_version : String
  pub gap_kind : String
  pub remedy : String
  pub pinned_version : String
  pub bump : String
  pub citing_artifact : String
  pub via : String

-- `Violation`. Line numbers are not negative.
pub record Violation : Type 0 where
  pub rule : String
  pub file : String
  pub message : String
  pub severity : String
  pub source_pack : String
  pub project_wide : Bool
  pub gate_type : String
  pub line : ℕ
  pub waiver_hint : String
  pub properties : List (String × String)
  pub identity : String
  pub identity_hash : String
  pub region_hash : String
  pub trace : Option Trace

-- `Violation{Rule: …, File: …, Message: …, Severity: …}`: what a literal leaves out is zero.
abbrev pub new_violation : String → String → String → String → Violation
new_violation r f m s = record {
  rule = r;
  file = f;
  message = m;
  severity = s;
  source_pack = "";
  project_wide = false;
  gate_type = "";
  line = 0;
  waiver_hint = "";
  properties = [];
  identity = "";
  identity_hash = "";
  region_hash = "";
  trace = none;
}

-- The values that `StepResult.Status` is given anywhere in the program.
pub data Status : Type 0 where
  pass fail skipped warning : Status

abbrev pub is_fail : Status → Bool
is_fail Status.fail = true
is_fail _ = false

abbrev pub is_skipped : Status → Bool
is_skipped Status.skipped = true
is_skipped _ = false

pub record StepResult : Type 0 where
  pub step_name : String
  pub status : Status
  pub duration_ms : ℕ
  pub violations : List Violation
  pub new_violations : List Violation
  pub fixed_violations : List Violation
  pub seeded_violations : List Violation
  pub reason : String
  pub native_sandbox_applied : Bool
  pub config_err : Bool

-- `StepResult{StepName: …, Status: …, Violations: …, Reason: …}`
abbrev pub new_step_result : String → Status → List Violation → String → StepResult
new_step_result name s vs why = record {
  step_name = name;
  status = s;
  duration_ms = 0;
  violations = vs;
  new_violations = [];
  fixed_violations = [];
  seeded_violations = [];
  reason = why;
  native_sandbox_applied = false;
  config_err = false;
}

abbrev pub step_artifact_validation : String
step_artifact_validation = "artifact_validation"

abbrev pub step_test_verification : String
step_test_verification = "test_verification"

abbrev pub step_test_substantiveness : String
step_test_substantiveness = "test_substantiveness"

abbrev pub step_coverage_threshold : String
step_coverage_threshold = "coverage_threshold"

abbrev pub step_contract_signature : String
step_contract_signature = "contract_signature"

abbrev pub step_baseline_comparison : String
step_baseline_comparison = "baseline_comparison"

abbrev pub step_waiver_resolution : String
step_waiver_resolution = "waiver_resolution"

abbrev pub step_ledger_integrity : String
step_ledger_integrity = "ledger_integrity"

abbrev pub step_artifact_status_drift : String
step_artifact_status_drift = "artifact_status_drift"

abbrev pub step_artifact_status_drift_advisory : String
step_artifact_status_drift_advisory = "artifact_status_drift_advisory"

abbrev pub step_requirement_traceability : String
step_requirement_traceability = "requirement_traceability"

abbrev pub step_requirement_traceability_advisory : String
step_requirement_traceability_advisory = "requirement_traceability_advisory"

abbrev pub step_pack_engines : String
step_pack_engines = "pack_engines"
