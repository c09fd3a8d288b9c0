-- ===== src/Gate/Run/ExitCodes.antt =====
-- The exit code of a run.
use Prim.Native.String.{String}
use backstop_core.Prelude.{ℕ, Bool, List, ◌≡◌, refl, ◌||◌, arith, if◌then◌else◌}
use backstop_core.Gate.Violation.{StepResult}
use backstop_core.Gate.Result.Tally.{none_failed, pass-new_gate_result}
use backstop_core.Gate.Policy.{apply_policy}
use backstop_core.Gate.Run.{Gate, Progress, run_steps, start, report, run}
use backstop_core.Gate.Run.Halting.{stops, halted-run_steps}

module _ {W : Type 0} (hash_string quote : String → String) (elapsed : W → W → ℕ) where
  -- The results that the verdict is computed from: those of the steps, after the policy.
  abbrev pub judged_steps : Gate W → W → List StepResult
  judged_steps g w =
      apply_policy hash_string g.baseline g.scope g.policy
        (run_steps hash_string quote elapsed g g.steps (start hash_string quote elapsed w)).results

  -- Some step that runs contributes a result that signals a configuration error.
  abbrev pub has_signal : Gate W → W → Bool
  has_signal g w = stops hash_string quote elapsed g g.steps (start hash_string quote elapsed w)

  pass-report :
      (g : Gate W) (p : Progress W)
      → (report hash_string quote elapsed g p).pass
        ≡ none_failed (apply_policy hash_string g.baseline g.scope g.policy p.results)
  unfolding report
  pass-report g p =
      pass-new_gate_result hash_string
        (apply_policy hash_string g.baseline g.scope g.policy p.results) g.scope

  -- The exit code is 2 when the gate was built with a configuration error or the result of a step
  -- signals one, of those up to the first that does, else 1 when a step has failed after the policy, else 0.
  pub exit_code-run :
      (g : Gate W) (w : W)
      → (run hash_string quote elapsed g w).1 ≡ (
          if g.config_err || has_signal g w
          then 2
          else if none_failed (judged_steps g w)
          then 0
          else 1)
  unfolding run
  exit_code-run g w = ground (
    arith,
    halted-run_steps hash_string quote elapsed g g.steps (start hash_string quote elapsed w) refl,
    pass-report g
        (run_steps hash_string quote elapsed g g.steps (start hash_string quote elapsed w)),
  )
