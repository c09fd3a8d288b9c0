-- ===== src/Tests/Samples.antt =====
-- Findings, scopes, policies and waivers that the tests share.
use Prim.Native.String.{String, ◌++◌}
use backstop_core.Prelude.{
  ℕ, ◌+◌, true, false, List, [], ◌∷◌, Option, none, some, eqb, ◌==◌, ◌&&◌, if◌then◌else◌,
}
use backstop_core.Waiver.Adjudicate.{Finding, LineReader}
use backstop_core.Gate.Violation.{
  Violation, new_violation, Status, StepResult, new_step_result, step_pack_engines,
}
use backstop_core.Gate.Scope.{GateScope, ScopeMode}
use backstop_core.Gate.Baseline.{BaselineArtifact, BaselineCompareOptions}
use backstop_core.Gate.Run.{StepFunc, Gate}

-- A hash that tells all texts apart.
abbrev pub hash : String → String
hash s = "#" ++ s

abbrev pub quote : String → String
quote s = s

abbrev pub elapsed : ℕ → ℕ → ℕ
elapsed a b = 7

abbrev pub bad_call : Violation
bad_call = record (new_violation "org/pack/no-eval" "pkg/a.go" "eval is forbidden" "error") {
  line = 4;
  source_pack = "org/pack";
}

abbrev pub notice : Violation
notice = record (new_violation "org/pack/style" "pkg/b.go" "long line" " Warning ") {
  line = 9;
  source_pack = "org/pack";
}

abbrev pub failed_step : StepResult
failed_step = new_step_result step_pack_engines Status.fail (bad_call ∷ notice ∷ []) ""

abbrev pub passed_step : StepResult
passed_step = new_step_result "code_check" Status.pass [] ""

-- A step that counts its runs in the world.
abbrev pub returns : StepResult → StepFunc ℕ
returns r n = (r, n + 1)

abbrev pub broken_step : StepResult
broken_step = record (new_step_result "test_verification" Status.fail [] "") { config_err = true }

abbrev pub gate_of : List (StepFunc ℕ) → Gate ℕ
gate_of steps = record {
  steps = steps;
  config_err = false;
  scope = none;
  baseline = none;
  baseline_enabled = false;
  baseline_warning = "";
  rule_set_change_seeding_allowed = false;
  rule_set_change_files = [];
  policy = [];
  waiver_inputs = none;
}

abbrev pub diff_scope : GateScope
diff_scope = record {
  mode = ScopeMode.diff;
  files = "pkg/a.go" ∷ [];
  warnings = [];
  project_root = "";
  file_set = "pkg/a.go" ∷ [];
}

abbrev pub options_for : Option GateScope → BaselineCompareOptions
options_for sc = record { scope = sc; allow_rule_set_change_seeding = false; changed_files = [] }

abbrev pub old_baseline : BaselineArtifact
old_baseline = record { violations = bad_call ∷ [] }

-- A file whose fourth line carries a waiver for the finding on it.
abbrev pub source_line : LineReader
source_line file line =
    if file == "pkg/a.go" && eqb line 4
    then some "eval(x) // @waiver:org/pack/no-eval:deferred:2030-01-02 ISSUE-050"
    else none

abbrev pub bad_finding : Finding
bad_finding = record {
  rule_id = "org/pack/no-eval";
  file = "pkg/a.go";
  line = 4;
  severity = "error";
}
