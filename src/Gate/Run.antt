-- ===== src/Gate/Run.antt =====
-- pkg/gate/gate.go: the run of the steps, with the waiver and the baseline passes swapped in for
-- their placeholders, and the exit code.
pub mod Halting
pub mod ExitCodes
use Prim.Native.String.{String}
use backstop_core.Prelude.{
  ℕ, ◌+◌, Bool, true, false, not, ◌&&◌, ◌||◌, List, [], ◌∷◌, ◌++◌, Option, none, some, ◌==◌, length,
  is_empty, if◌then◌else◌,
}
use backstop_core.Text.Numbers.{concat, itoa}
use backstop_core.Waiver.Token.{Waiver}
use backstop_core.Gate.Violation.{
  Violation, Status, StepResult, new_step_result, step_baseline_comparison, step_waiver_resolution,
  step_ledger_integrity,
}
use backstop_core.Gate.Scope.{GateScope}
use backstop_core.Gate.Baseline.{
  BaselineArtifact, BaselineComparison, BaselineCompareOptions, compare_baseline,
}
use backstop_core.Gate.Policy.{DimensionPolicy, apply_policy}
use backstop_core.Gate.Waivers.{WaiverInputs, Reconciled, compute_waiver_result}
use backstop_core.Gate.Result.{GateResult, empty_result, new_gate_result}

-- `StepFunc`: a step reads and changes the world in which it runs. Its context is part of it.
abbrev pub StepFunc : Type 0 → Type 0
StepFunc W = W → StepResult × W

-- `Gate`, without the cache metadata that only the output names.
pub record Gate (W : Type 0) : Type 0 where
  pub steps : List (StepFunc W)
  pub config_err : Bool
  pub scope : Option GateScope
  pub baseline : Option BaselineArtifact
  pub baseline_enabled : Bool
  pub baseline_warning : String
  pub rule_set_change_seeding_allowed : Bool
  pub rule_set_change_files : List String
  pub policy : List (String × DimensionPolicy)
  pub waiver_inputs : Option WaiverInputs

-- `accumulatedViolations`
unfoldable pub is_derived_step : String → Bool
is_derived_step name =
    name == step_baseline_comparison
    || name == step_waiver_resolution
    || name == step_ledger_integrity

unfoldable pub accumulated_violations : List StepResult → List Violation
unfolding is_derived_step
accumulated_violations [] = []
accumulated_violations (s ∷ ss) =
    let rest = accumulated_violations ss in
    if is_derived_step s.step_name then rest else s.violations ++ rest

-- What the steps leave: their results, the active waivers, whether a step signalled a
-- configuration error, and the world.
pub record Progress (W : Type 0) : Type 0 where
  pub results : List StepResult
  pub active_waivers : List Waiver
  pub halted : Bool
  pub world : W

abbrev pub no_baseline_reason : String
no_baseline_reason =
    "baseline unavailable: no cached baseline found at .backstop/baseline.json; run CI baseline publication or backstop baseline pull"

module _ {W : Type 0} (hash_string quote : String → String) (elapsed : W → W → ℕ) where
  unfoldable pub gate_options : Gate W → BaselineCompareOptions
  gate_options g = record {
    scope = g.scope;
    allow_rule_set_change_seeding = g.rule_set_change_seeding_allowed;
    changed_files = g.rule_set_change_files;
  }

  abbrev pub warning_suffix : Gate W → String
  warning_suffix g =
      if g.baseline_warning == "" then "" else concat ("; " ∷ g.baseline_warning ∷ [])

  -- The result of the baseline step for a comparison.
  unfoldable pub baseline_step : Gate W → BaselineComparison → StepResult
  unfolding concat itoa
  baseline_step g c =
      let seeded = length c.seeded_violations in
      let clean_reason =
        (if is_empty c.seeded_violations
          then "0 new violations beyond baseline"
          else concat (
              "0 new violations beyond baseline; "
              ∷ itoa seeded
              ∷ " violations seeded due to explicit rule-set change"
              ∷ [])) in
      let fresh = new_step_result step_baseline_comparison Status.pass [] "" in
      if is_empty c.new_violations
      then record fresh {
        fixed_violations = c.fixed_violations;
        seeded_violations = c.seeded_violations;
        reason = concat (clean_reason ∷ warning_suffix g ∷ []);
      }
      else record fresh {
        status = Status.fail;
        violations = c.new_violations;
        new_violations = c.new_violations;
        fixed_violations = c.fixed_violations;
        seeded_violations = c.seeded_violations;
        reason = concat (
            itoa (length c.new_violations)
            ∷ " new violations beyond baseline"
            ∷ warning_suffix g
            ∷ []);
      }

  -- `computeBaselineResult`
  unfoldable pub compute_baseline_result : Gate W → List StepResult → StepResult
  unfolding baseline_step gate_options accumulated_violations
  compute_baseline_result g accumulated =
      let compared =
        compare_baseline hash_string (accumulated_violations accumulated) g.baseline
          (gate_options g) in
      elim g.baseline [
        | none ↦
            new_step_result step_baseline_comparison Status.skipped []
              (if g.baseline_warning == "" then no_baseline_reason else g.baseline_warning)
        | some b ↦ baseline_step g compared
      ]

  -- The waiver pass in place of a waiver step, which also rewrites the results before it.
  unfoldable pub swap_waivers : Gate W → StepResult → List StepResult → List Waiver → Reconciled
  swap_waivers g r acc active =
      let untouched : Reconciled = record { results = acc; active_waivers = active; step = r } in
      elim g.waiver_inputs [
        | none ↦ untouched
        | some inputs ↦
            if r.step_name == step_waiver_resolution
            then compute_waiver_result quote inputs acc
            else untouched
      ]

  -- The baseline pass in place of a baseline step.
  unfoldable pub swap_baseline : Gate W → StepResult → List StepResult → StepResult
  unfolding compute_baseline_result
  swap_baseline g r acc =
      if g.baseline_enabled && r.step_name == step_baseline_comparison
      then compute_baseline_result g acc
      else r

  -- One round of the loop of `Run`: a step runs, and its result is appended.
  unfoldable pub run_step : Gate W → StepFunc W → Progress W → Progress W
  unfolding swap_waivers swap_baseline
  run_step g step p =
      let (r0, w) = step p.world in
      let swapped = swap_waivers g r0 p.results p.active_waivers in
      let r = swap_baseline g swapped.step swapped.results in
      record {
        results = swapped.results ++ record r { duration_ms = elapsed p.world w } ∷ [];
        active_waivers = swapped.active_waivers;
        halted = r.config_err;
        world = w;
      }

  -- The loop: it breaks behind a step that signals a configuration error.
  unfoldable pub run_steps : Gate W → List (StepFunc W) → Progress W → Progress W
  run_steps g [] p = p
  run_steps g (step ∷ rest) p =
      let q = run_step g step p in let later = run_steps g rest q in if q.halted then q else later

  abbrev pub start : W → Progress W
  start w = record { results = []; active_waivers = []; halted = false; world = w }

  -- `ExitCode`
  unfoldable pub exit_code : GateResult → Bool → ℕ
  exit_code r config_err = if config_err then 2 else if not r.pass then 1 else 0

  -- The result that `Run` reports for what the steps left.
  unfoldable pub report : Gate W → Progress W → GateResult
  unfolding new_gate_result
  report g p =
      record (new_gate_result hash_string
        (apply_policy hash_string g.baseline g.scope g.policy p.results) g.scope) {
          active_waivers = p.active_waivers;
        }

  -- `Run`
  unfoldable pub run : Gate W → W → GateResult × ℕ × W
  unfolding run_steps run_step report exit_code
  run g w =
      let p = run_steps g g.steps (start w) in
      let r = report g p in
      if g.config_err
      then (record (empty_result g.scope) { pass = false }, 2, w)
      else if p.halted
      then (r, 2, p.world)
      else (r, exit_code r false, p.world)
