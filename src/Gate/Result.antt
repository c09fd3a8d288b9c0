-- ===== src/Gate/Result.antt =====
-- pkg/gate/result.go: the summary of a run.
pub mod Tally
use backstop_core.Prelude.{
  ℕ, ◌+◌, String, Bool, true, false, ◌||◌, List, [], ◌∷◌, ◌++◌, map, Option, none, some,
  if◌then◌else◌,
}
use backstop_core.Gate.Violation.{Violation, Status, is_fail, StepResult}
use backstop_core.Gate.Scope.{GateScope}
use backstop_core.Gate.Identity.{enrich}
use backstop_core.Gate.Policy.{blocks_verdict}
use backstop_core.Waiver.Token.{Waiver}

-- `GateResult`, without the provenance that the command line fills in.
pub record GateResult : Type 0 where
  pub schema_version : String
  pub native_sandbox_applied : Bool
  pub scope : Option GateScope
  pub pass : Bool
  pub total_violations : ℕ
  pub total_warnings : ℕ
  pub steps_passed : ℕ
  pub steps_failed : ℕ
  pub steps_skipped : ℕ
  pub steps_warned : ℕ
  pub steps : List StepResult
  pub active_waivers : List Waiver

-- `tallyBySeverity`
unfoldable pub tally_by_severity : List Violation → ℕ × ℕ
tally_by_severity [] = (0, 0)
tally_by_severity (v ∷ vs) =
    let (blocking, warnings) = tally_by_severity vs in
    if blocks_verdict v then (blocking + 1, warnings) else (blocking, warnings + 1)

abbrev pub empty_result : Option GateScope → GateResult
empty_result sc = record {
  schema_version = "gate/v1";
  native_sandbox_applied = false;
  scope = sc;
  pass = true;
  total_violations = 0;
  total_warnings = 0;
  steps_passed = 0;
  steps_failed = 0;
  steps_skipped = 0;
  steps_warned = 0;
  steps = [];
  active_waivers = [];
}

-- The `switch` on the status of a step.
unfoldable pub count_status : Status → GateResult → GateResult
count_status Status.pass r = record r { steps_passed = r.steps_passed + 1 }
count_status Status.fail r = record r { steps_failed = r.steps_failed + 1; pass = false }
count_status Status.skipped r = record r { steps_skipped = r.steps_skipped + 1 }
count_status Status.warning r = record r { steps_warned = r.steps_warned + 1 }

module _ (hash_string : String → String) where
  -- The findings of a step are enriched in place.
  unfoldable pub enrich_step : StepResult → StepResult
  enrich_step s = record s {
    violations = map (enrich hash_string) s.violations;
    new_violations = map (enrich hash_string) s.new_violations;
    fixed_violations = map (enrich hash_string) s.fixed_violations;
    seeded_violations = map (enrich hash_string) s.seeded_violations;
  }

  -- The body of the loop of `NewGateResultWithScope`.
  unfoldable pub add_step : StepResult → GateResult → GateResult
  unfolding enrich_step count_status tally_by_severity
  add_step s0 r0 =
      let s = enrich_step s0 in
      let r = count_status s.status r0 in
      let (blocking, warnings) = tally_by_severity s.violations in
      record r {
        native_sandbox_applied = r.native_sandbox_applied || s.native_sandbox_applied;
        total_violations = r.total_violations + blocking;
        total_warnings = r.total_warnings + warnings;
        steps = r.steps ++ s ∷ [];
      }

  unfoldable pub add_steps : List StepResult → GateResult → GateResult
  unfolding add_step
  add_steps [] r = r
  add_steps (s ∷ ss) r = add_steps ss (add_step s r)

  -- `NewGateResultWithScope`
  unfoldable pub new_gate_result : List StepResult → Option GateScope → GateResult
  unfolding add_steps
  new_gate_result steps sc = add_steps steps (empty_result sc)
